-- ===== src/Consensus/Consider/Sound.antt =====
-- Which block is chosen, against a description of the acceptable ones.
use gcosmos.Base.{
  ℕ, ◌≡◌, refl, sym, ◌∙◌, List, [], ◌∷◌, Option, none, some, Bytes, All, nat_key, bytes_key, Result,
  ok, err, panic, ◌≢◌,
}
use gcosmos.Consensus.Consider.{
  AppManager, Annotations, Moment, Verdict, ignored, fetched, accepted, judge,
  consider_proposed_blocks, Outcome, continued,
}
use gcosmos.Consensus.Consider.Ends.{IsUsable, judge-Ends}
use gcosmos.Consensus.Consider.Acceptable.{IsAcceptable, judge-IsAcceptable, IsAcceptable-judge}

ok_injective :
    {a b : Option Bytes} → ◌≡◌ {A = Result (Unit {0}) (Option Bytes)} (ok a) (ok b) → a ≡ b
ok_injective e = cc

module _ {Tx S : Type 0} (am : AppManager Tx S) (ann : Annotations) (cur_h cur_r : ℕ) where
  -- The loop as a search: what it returns is the first acceptable header, if there is one.
  pub data Chosen : List (Moment Tx) → Option Bytes → Type 0 where
    none_left : Chosen [] none
    this :
        (m : Moment Tx) (ms : List (Moment Tx))
        → IsAcceptable am ann cur_h cur_r m
        → Chosen (m ∷ ms) (some m.header.hash)
    later :
        (m : Moment Tx) (ms : List (Moment Tx)) (choice : Option Bytes)
        → ¬ IsAcceptable am ann cur_h cur_r m
        → Chosen ms choice
        → Chosen (m ∷ ms) choice

  not-IsAcceptable :
      (m : Moment Tx) (v : Result (Unit {0}) Verdict)
      → judge am ann cur_h cur_r m ≡ v
      → v ≢ ok accepted
      → ¬ IsAcceptable am ann cur_h cur_r m
  not-IsAcceptable m v e ne a = ne (sym e ∙ IsAcceptable-judge am ann cur_h cur_r m a)

  continued-Chosen :
      (m : Moment Tx) (ms : List (Moment Tx)) (choice : Option Bytes) (rest : Outcome)
      (v : Result (Unit {0}) Verdict)
      → judge am ann cur_h cur_r m ≡ v
      → (rest.0 ≡ ok choice → Chosen ms choice)
      → (continued am ann cur_h cur_r m rest v).0 ≡ ok choice
      → Chosen (m ∷ ms) choice
  continued-Chosen m ms choice rest panic judged ih e = cc
  continued-Chosen m ms choice rest (err x) judged ih e = cc
  continued-Chosen m ms choice rest (ok ignored) judged ih e =
      later m ms choice (not-IsAcceptable m _ judged (λ p. cc)) (ih e)
  continued-Chosen m ms choice rest (ok fetched) judged ih e =
      later m ms choice (not-IsAcceptable m _ judged (λ p. cc)) (ih e)
  continued-Chosen m ms choice rest (ok accepted) judged ih e =
      rw (← (ok_injective e)) (this m ms (judge-IsAcceptable am ann cur_h cur_r m judged))

  consider_proposed_blocks_lem :
      (ms : List (Moment Tx)) (choice : Option Bytes)
      → (consider_proposed_blocks am ann cur_h cur_r ms).0 ≡ ok choice
      → Chosen ms choice
  unfolding consider_proposed_blocks
  consider_proposed_blocks_lem [] choice e = rw (← (ok_injective e)) none_left
  consider_proposed_blocks_lem (m ∷ ms) choice e =
      continued-Chosen m ms choice (consider_proposed_blocks am ann cur_h cur_r ms)
        (judge am ann cur_h cur_r m) refl (consider_proposed_blocks_lem ms choice) e

  -- The loop comes to a choice if no round of it panics.
  continued-Ends :
      (m : Moment Tx) (rest : Outcome) (v : Result (Unit {0}) Verdict)
      → (judgement : Verdict) × (v ≡ ok judgement)
      → (choice : Option Bytes) × (rest.0 ≡ ok choice)
      → (choice : Option Bytes) × ((continued am ann cur_h cur_r m rest v).0 ≡ ok choice)
  continued-Ends m rest panic (w, e) h = cc
  continued-Ends m rest (err x) (w, e) h = cc
  continued-Ends m rest (ok ignored) (w, e) h = h
  continued-Ends m rest (ok fetched) (w, e) h = h
  continued-Ends m rest (ok accepted) (w, e) h = (some m.header.hash, refl)

  consider_proposed_blocks-Ends :
      (ms : List (Moment Tx))
      → All IsUsable ms
      → (choice : Option Bytes) × ((consider_proposed_blocks am ann cur_h cur_r ms).0 ≡ ok choice)
  unfolding consider_proposed_blocks
  consider_proposed_blocks-Ends [] h = (none, refl)
  consider_proposed_blocks-Ends (m ∷ ms) (usable, h) =
      continued-Ends m (consider_proposed_blocks am ann cur_h cur_r ms) (judge am ann cur_h cur_r m)
        (judge-Ends am ann cur_h cur_r m usable) (consider_proposed_blocks-Ends ms h)

  -- `ConsiderProposedBlocks` does not panic, and returns the hash of the first acceptable header, or that
  -- no choice is ready, exactly if no header is acceptable. A header is acceptable if it is of the current
  -- height and round, its data ID is too, its transactions, if the ID counts any, are complete in the cache
  -- and run in order without an error, and its time has come. What the cache has under a header's data
  -- ID is a request, which holds a transaction if it is ready.
  pub consider_proposed_blocks-Chosen :
      (ms : List (Moment Tx))
      → All IsUsable ms
      → (choice : Option Bytes) × ((consider_proposed_blocks am ann cur_h cur_r ms).0 ≡ ok choice)
        × Chosen ms choice
  consider_proposed_blocks-Chosen ms h =
      let (choice, e) = consider_proposed_blocks-Ends ms h in
      (choice, e, consider_proposed_blocks_lem ms choice e)
