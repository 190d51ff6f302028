-- ===== src/Component/Wired/Init.antt =====
-- `init` leaves a component with what is open recorded, however far it comes.
use gcosmos.Base.{
  ◌≡◌, inl, inr, Bool, true, false, List, [], ◌∷◌, ◌++◌, Option, none, some, Bytes, codes, arith,
  bytes_beq, Bool-cases,
}
use gcosmos.Component.{Component, State, on_c, check}
use gcosmos.Component.Init.{
  Env, asserted, assert_env, assert_rules, in_build, get_assert_engine_opt, assert_rule_flag,
  has_log, set_seeds, ed25519_only, or_panic, configure, set_stores, init_stores, new_store, opened,
  listen, write_address, listen_for, initialize_sqlite, init, http_addr_flag, http_addr_file_flag,
  grpc_addr_flag, grpc_addr_file_flag, sqlite_path_flag, seed_addrs_flag,
}
use gcosmos.Driver.Steps.{◌>>◌, continue, need}
use gcosmos.Component.Wired.{
  IsWired, HasHttp, IsFresh, HasBoth, After, Takes, >>=-Takes, then_both, fresh-IsWired,
  http-IsWired, both-IsWired,
}

-- Steps that change nothing, and go on or stop.
assert_env-Takes : (b : Bool) → Takes IsFresh IsFresh (assert_env b)
assert_env-Takes true s h = h
assert_env-Takes false s h = fresh-IsWired s h

assert_rules-Takes :
    (env : Env) (rules : Option Bytes) → Takes IsFresh IsFresh (assert_rules env rules)
assert_rules-Takes env none s h = fresh-IsWired s h
assert_rules-Takes env (some rules) s h = assert_env-Takes (env.environment_from_string rules) s h

in_build-Takes : (env : Env) (debug : Bool) → Takes IsFresh IsFresh (in_build env debug)
in_build-Takes env true s h = assert_rules-Takes env (env.cfg assert_rule_flag) s h
in_build-Takes env false s h = h

or_panic-After :
    (P : State → Type 0) (b : Bool) (s : State) → P s → IsWired s → After P (or_panic b s)
or_panic-After P true s h wired = h
or_panic-After P false s h wired = wired

pub check-Takes : (b : Bool) → Takes HasBoth HasBoth (check b)
check-Takes true s h = h
check-Takes false s h = both-IsWired s h

asserted-Takes : (v : Option Bytes) → Takes HasBoth HasBoth (asserted v)
asserted-Takes none s h = both-IsWired s h
asserted-Takes (some v) s h = h

need-Takes : (v : Option Bytes) → Takes HasBoth HasBoth (need v)
need-Takes none s h = both-IsWired s h
need-Takes (some v) s h = h

set_seeds-Takes : (v : Option Bytes) → Takes HasBoth HasBoth (set_seeds v)
set_seeds-Takes none s h = h
set_seeds-Takes (some v) s h = ground arith

set_signer-Takes : Takes HasBoth HasBoth (on_c (λ c. record c { signer = true }))
set_signer-Takes s h = ground arith

set_stores-Takes : (env : Env) → Takes HasBoth HasBoth (on_c (set_stores env))
set_stores-Takes env s h = ground arith

configure-Takes :
    (env : Env) (a : Bool) (chain_id : Bytes)
    → Takes HasBoth HasBoth (on_c (configure env a chain_id))
configure-Takes env a chain_id s h = ground arith

initialize_sqlite-Takes :
    (env : Env) (path : Bytes) → Takes HasBoth HasBoth (initialize_sqlite env path)
unfolding initialize_sqlite
initialize_sqlite-Takes env [] s h = h
initialize_sqlite-Takes env (x ∷ path) s h = elim (Bool-cases (new_store env (x ∷ path))) [
  | inl opened ↦ rw (opened, After) (ground arith)
  | inr failed ↦ rw (failed, After) (both-IsWired s h)
]

module _ (env : Env) (written : (f : Bytes) → env.write_file f ≡ true) where
  -- A listener is refused, or opened and recorded.
  opened-After :
      (Q : State → Type 0) (set : Bytes → Component → Component) (s : State) (o file : Option Bytes)
      → IsWired s
      → ((ln : Bytes) (files : List (Bytes × Bytes))
          → Q (record {
            c = set ln s.c;
            w = record s.w { listening = ln ∷ s.w.listening; files = files };
          }))
      → After Q (continue (opened s o) (λ ln. write_address env ln file >> on_c (set ln)))
  unfolding write_address
  opened-After Q set s none file wired done = wired
  opened-After Q set s (some ln) none wired done = done ln s.w.files
  opened-After Q set s (some ln) (some []) wired done = done ln s.w.files
  opened-After Q set s (some ln) (some (y ∷ f)) wired done =
      rw (written (y ∷ f), After) (done ln ((y ∷ f, ln ++ codes "\n") ∷ s.w.files))

  listen_http-Takes :
      (addr file : Option Bytes)
      → Takes IsFresh HasHttp (listen_for env addr file (λ ln c. record c { http_ln = some ln }))
  unfolding listen_for listen
  listen_http-Takes none file s h = ground arith
  listen_http-Takes (some []) file s h = ground arith
  listen_http-Takes (some (x ∷ addr)) file s h =
      opened-After HasHttp (λ ln c. record c { http_ln = some ln }) s (env.listen (x ∷ addr)) file
        (fresh-IsWired s h) (λ ln files. ground arith)

  listen_grpc-Takes :
      (addr file : Option Bytes)
      → Takes HasHttp HasBoth (listen_for env addr file (λ ln c. record c { grpc_ln = some ln }))
  unfolding listen_for listen
  listen_grpc-Takes none file s h = ground arith
  listen_grpc-Takes (some []) file s h = ground arith
  listen_grpc-Takes (some (x ∷ addr)) file s h =
      opened-After HasBoth (λ ln c. record c { grpc_ln = some ln }) s (env.listen (x ∷ addr)) file
        (http-IsWired s h) (λ ln files. ground arith)

  init_stores-Takes : (assert_opt : Bool) → Takes HasBoth HasBoth (init_stores env assert_opt)
  unfolding init_stores
  init_stores-Takes assert_opt =
      then_both HasBoth (asserted (env.cfg sqlite_path_flag)) _
        (asserted-Takes (env.cfg sqlite_path_flag))
        λ path.
          then_both HasBoth (initialize_sqlite env path) _ (initialize_sqlite-Takes env path) λ _.
            then_both HasBoth (on_c (set_stores env)) _ (set_stores-Takes env) λ _.
              then_both HasBoth (check env.genesis_opens) _ (check-Takes env.genesis_opens) λ _.
                then_both HasBoth (need env.genesis_chain_id)
                  (λ chain_id. on_c (configure env assert_opt chain_id))
                  (need-Takes env.genesis_chain_id) (configure-Takes env assert_opt)

  pub init-Takes : Takes IsFresh HasBoth (init env)
  unfolding init get_assert_engine_opt
  init-Takes =
      >>=-Takes IsFresh IsFresh HasBoth has_log _
        (λ s h. or_panic-After IsFresh s.c.log s h (fresh-IsWired s h))
        λ _.
          >>=-Takes IsFresh IsFresh HasBoth (get_assert_engine_opt env) _
            (in_build-Takes env env.debug)
            λ assert_opt.
              >>=-Takes IsFresh HasHttp HasBoth
                (listen_for env (env.cfg http_addr_flag) (env.cfg http_addr_file_flag) _) _
                (listen_http-Takes (env.cfg http_addr_flag) (env.cfg http_addr_file_flag))
                λ _.
                  >>=-Takes HasHttp HasBoth HasBoth
                    (listen_for env (env.cfg grpc_addr_flag) (env.cfg grpc_addr_file_flag) _) _
                    (listen_grpc-Takes (env.cfg grpc_addr_flag) (env.cfg grpc_addr_file_flag))
                    λ _.
                      then_both HasBoth (set_seeds (env.cfg seed_addrs_flag)) _
                        (set_seeds-Takes (env.cfg seed_addrs_flag))
                        λ _.
                          then_both HasBoth (check env.unmarshal_comet_config) _
                            (check-Takes env.unmarshal_comet_config)
                            λ _.
                              then_both HasBoth (ed25519_only env.priv_key_type) _
                                (λ s h.
                                  or_panic-After HasBoth
                                    (bytes_beq env.priv_key_type (codes "ed25519")) s h
                                    (both-IsWired s h))
                                λ _.
                                  then_both HasBoth (on_c (λ c. record c { signer = true }))
                                    (λ _. init_stores env assert_opt) set_signer-Takes
                                    (λ _. init_stores-Takes assert_opt)
