-- ===== src/Commands/Seeded.antt =====
-- What a seed writes into its file is what a node with that text for its seeds dials.
use gcosmos.Base.{
  ◌≡◌, ◌≢◌, refl, ap, ◌∙◌, Bool, true, not, ◌&&◌, List, [], ◌∷◌, ◌++◌, append_assoc, some, Bytes,
  codes, arith, ok, nat_eq, All,
}
use gcosmos.Commands.{SeedEnv, seed_command, join_lines, join_rest}
use gcosmos.Component.Start.{StartEnv, seeds, split_lines}

abbrev no_newline : Bytes → Bool
no_newline [] = true
no_newline (c ∷ s) = not (nat_eq c 10) && no_newline s

-- An address is a line that the node can parse.
pub record IsAddr (senv : StartEnv) (a : Bytes) : Type 0 where
  pub one_line : no_newline a ≡ true
  pub given : a ≢ []
  pub parsed : senv.addr_info_from_string a ≡ true

split-line :
    (a rest : Bytes) → no_newline a ≡ true → split_lines (a ++ (10 ∷ rest)) ≡ a ∷ split_lines rest
unfolding split_lines
split-line [] rest h = refl
split-line (c ∷ a) rest h = ground (arith, split-line a rest)

-- Every line with its end.
lines : List Bytes → Bytes
lines [] = []
lines (a ∷ addrs) = a ++ (10 ∷ lines addrs)

join_rest-lines : (addrs : List Bytes) → join_rest addrs ++ codes "\n" ≡ 10 ∷ lines addrs
unfolding lines
join_rest-lines [] = refl
join_rest-lines (a ∷ addrs) =
    ap (◌∷◌ 10)
      (append_assoc a (join_rest addrs) (codes "\n") ∙ ap (◌++◌ a) (join_rest-lines addrs))

seeds-lines :
    (senv : StartEnv) (addrs : List Bytes)
    → All (IsAddr senv) addrs
    → seeds senv (split_lines (lines addrs)) ≡ addrs
unfolding seeds split_lines lines
seeds-lines senv [] h = refl
seeds-lines senv ([] ∷ addrs) (h, hs) = absurd (h.given refl)
seeds-lines senv ((c ∷ a) ∷ addrs) (h, hs) =
    rw (split-line (c ∷ a) (lines addrs) h.one_line, h.parsed, seeds-lines senv addrs hs)

seeds-joined :
    (senv : StartEnv) (addrs : List Bytes)
    → All (IsAddr senv) addrs
    → seeds senv (split_lines (join_lines addrs ++ codes "\n")) ≡ addrs
unfolding join_lines
seeds-joined senv [] h = unfold seeds split_lines in refl
seeds-joined senv (a ∷ addrs) h =
    ap (λ t. seeds senv (split_lines t))
      (append_assoc a (join_rest addrs) (codes "\n") ∙ ap (◌++◌ a) (join_rest-lines addrs))
    ∙ unfold lines in seeds-lines senv (a ∷ addrs) h

-- A node that is given what a seed wrote into its file for its seed addresses dials the addresses
-- of the seed, each once and in their order, if each is a line of its own that the node can parse.
pub seeds-seed_command :
    (env : SeedEnv) (senv : StartEnv) (path file text : Bytes) (addrs : List Bytes)
    → seed_command env path ≡ ok (file, text)
    → env.addr_info_to_p2p_addrs ≡ some addrs
    → All (IsAddr senv) addrs
    → seeds senv (split_lines text) ≡ addrs
unfolding seed_command
seeds-seed_command env senv path file text addrs e given h =
    let written : text ≡ join_lines addrs ++ codes "\n" = ground arith in
    ap (λ t. seeds senv (split_lines t)) written ∙ seeds-joined senv addrs h
