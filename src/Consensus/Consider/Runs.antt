-- ===== src/Consensus/Consider/Runs.antt =====
-- Transactions that run, one after the other.
use gcosmos.Base.{
  ◌≡◌, refl, Bool, true, false, List, [], ◌∷◌, Option, none, some, nat_key, bytes_key, ok,
}
use gcosmos.Consensus.Consider.{AppManager, apply_rest, apply_all, and_then}

module _ {Tx S : Type 0} (am : AppManager Tx S) where
  -- The transactions run one after the other without an error, from the state `s`.
  pub data RunsFrom : S → List Tx → Type 0 where
    done : (s : S) → RunsFrom s []
    next :
        (s s' : S) (tx : Tx) (txs : List Tx)
        → am.simulate_with_state s tx ≡ some (false, s')
        → RunsFrom s' txs
        → RunsFrom s (tx ∷ txs)

  pub data Runs : List Tx → Type 0 where
    first :
        (s : S) (tx : Tx) (txs : List Tx)
        → am.simulate tx ≡ some (false, s)
        → RunsFrom s txs
        → Runs (tx ∷ txs)

  and_then-eq-true :
      (o : Option (Bool × S)) (k : S → Bool)
      → and_then am o k ≡ true
      → (s : S) × (o ≡ some (false, s)) × (k s ≡ true)
  and_then-eq-true none k e = cc
  and_then-eq-true (some (true, s)) k e = cc
  and_then-eq-true (some (false, s)) k e = (s, refl, e)

  apply_rest-RunsFrom : (s : S) (txs : List Tx) → apply_rest am s txs ≡ true → RunsFrom s txs
  unfolding apply_rest
  apply_rest-RunsFrom s [] e = done s
  apply_rest-RunsFrom s (tx ∷ txs) e =
      let (s', ran, rest) = and_then-eq-true (am.simulate_with_state s tx) _ e in
      next s s' tx txs ran (apply_rest-RunsFrom s' txs rest)

  pub apply_all-Runs : (txs : List Tx) → apply_all am txs ≡ ok true → Runs txs
  unfolding apply_all
  apply_all-Runs [] e = cc
  apply_all-Runs (tx ∷ txs) e =
      let ran : and_then am (am.simulate tx) (λ s. apply_rest am s txs) ≡ true = cc in
      let (s, first_ran, rest) = and_then-eq-true (am.simulate tx) (λ s. apply_rest am s txs) ran in
      first s tx txs first_ran (apply_rest-RunsFrom s txs rest)

  RunsFrom-apply_rest : (s : S) (txs : List Tx) → RunsFrom s txs → apply_rest am s txs ≡ true
  unfolding apply_rest
  RunsFrom-apply_rest s [] (done _) = refl
  RunsFrom-apply_rest s (tx ∷ txs) (next _ s' _ _ ran rest) =
      rw ran (RunsFrom-apply_rest s' txs rest)

  pub Runs-apply_all : (txs : List Tx) → Runs txs → apply_all am txs ≡ ok true
  unfolding apply_all
  Runs-apply_all [] r = elim r [ ]
  Runs-apply_all (tx ∷ txs) (first s _ _ ran rest) = rw ran (rw (RunsFrom-apply_rest s txs rest))
