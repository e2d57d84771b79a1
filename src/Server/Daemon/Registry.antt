-- ===== src/Server/Daemon/Registry.antt =====
-- The map of sessions and their order, in the daemon of internal/server/server.go.
use ng_mux.Prelude.{
  ℕ, ◌≡◌, ◌≢◌, inl, inr, refl, sym, ap, ◌∙◌, arith, false, List, [], ◌∷◌, none, some, if◌then◌else◌,
  Bytes, bytes_eq, bytes_eq_iff, is_some, modify, has_name, DistinctNames, find, put, delete,
  find-put, find-delete, has_name-append, has_name-drop_name, drop_name-DistinctNames,
  DistinctNames-snoc, Option-cases, Bool-cases,
}
use ng_mux.Layout.{Float64}
use ng_mux.Server.Session.{Session, resize}
use ng_mux.Server.Client.{Client}
use ng_mux.Server.Daemon.{
  Daemon, publish, forget_session, session_emptied, rename_session, replace_name, has_session,
  kill_session, shutdown, shutdown_all, add_client, forget_client, fit_sessions, fit_each,
  fit_session, no_sessions,
}

-- The order lists each name of the map once, and a session is held under its name, which is not
-- empty.
pub record IsRegistered {F Frame : Type 0} (d : Daemon F Frame) : Type 0 where
  pub distinct : DistinctNames d.order
  pub listed : (n : Bytes) → has_name n d.order ≡ is_some (find n d.sessions)
  pub named : (n : Bytes) (s : Session F) → find n d.sessions ≡ some s → s.name ≡ n
  pub unnamed : find [] d.sessions ≡ none

some_eq {ℓ} : {A : Type ℓ} {x y : A} → some x ≡ some y → x ≡ y
some_eq h = ground arith

has_name-replace_name :
    (old new k : Bytes) (ns : List Bytes)
    → has_name new ns ≡ false
    → has_name k (replace_name old new ns) ≡ (
        if bytes_eq new k then has_name old ns else if bytes_eq old k then false else has_name k ns)
has_name-replace_name old new k [] h = ground arith
has_name-replace_name old new k (n ∷ ns) h = ground (
  arith,
  bytes_eq_iff old k,
  bytes_eq_iff new k,
  bytes_eq_iff n old,
  bytes_eq_iff n new,
  bytes_eq_iff n k,
  bytes_eq_iff old new,
  has_name-replace_name old new k ns,
)

replace_name-DistinctNames :
    (old new : Bytes) (ns : List Bytes)
    → has_name new ns ≡ false
    → DistinctNames ns
    → DistinctNames (replace_name old new ns)
replace_name-DistinctNames old new [] h d = tt
replace_name-DistinctNames old new (n ∷ ns) h d = ground (
  arith,
  bytes_eq_iff n old,
  bytes_eq_iff n new,
  bytes_eq_iff new n,
  bytes_eq_iff old n,
  bytes_eq_iff new new,
  bytes_eq_iff old new,
  has_name-replace_name old new n ns,
  has_name-replace_name old new new ns,
  replace_name-DistinctNames old new ns,
)

module _ {F Frame : Type 0} where
  publish-IsRegistered :
      (d : Daemon F Frame) (name : Bytes) (s : Session F)
      → s.name ≡ name
      → name ≢ []
      → IsRegistered d
      → IsRegistered (publish d name s).0
  unfolding publish
  publish-IsRegistered d name s e p v = elim (Option-cases (find name d.sessions)) [
    | inl q ↦
        rw (q, publish)
          (record {
            distinct = DistinctNames-snoc name d.order v.distinct (v.listed name ∙ rw q);
            listed = λ n. ground (
              arith,
              has_name-append n d.order (name ∷ []),
              find-put name n s d.sessions,
              v.listed n,
            );
            named = λ n t h.
                ground (arith, find-put name n s d.sessions, v.named n t, bytes_eq_iff name n);
            unnamed =
                ground (arith, find-put name [] s d.sessions, v.unnamed, bytes_eq_iff name []);
          })
    | inr (t, q) ↦ rw (q, publish) v
  ]

  forget_session-IsRegistered :
      (d : Daemon F Frame) (name : Bytes) → IsRegistered d → IsRegistered (forget_session d name).0
  unfolding forget_session
  forget_session-IsRegistered d name v = elim (Option-cases (find name d.sessions)) [
    | inl q ↦ rw (q, forget_session) v
    | inr (t, q) ↦
        rw (q, forget_session)
          (record {
            distinct = drop_name-DistinctNames name d.order v.distinct;
            listed = λ n. ground (
              arith,
              has_name-drop_name name n d.order v.distinct,
              find-delete name n d.sessions,
              v.listed n,
            );
            named = λ n s h. ground (arith, find-delete name n d.sessions, v.named n s);
            unnamed = ground (arith, find-delete name [] d.sessions, v.unnamed);
          })
  ]

  session_emptied-IsRegistered :
      (d : Daemon F Frame) (name : Bytes) → IsRegistered d → IsRegistered (session_emptied d name).0
  unfolding session_emptied
  session_emptied-IsRegistered d name v =
      let kept = forget_session-IsRegistered d name v in
      elim (Bool-cases (no_sessions (forget_session d name).0.sessions)) [
        | inl e ↦ rw e (record {
          distinct = kept.distinct;
          listed = kept.listed;
          named = kept.named;
          unnamed = kept.unnamed;
        })
        | inr e ↦ rw e (record {
          distinct = kept.distinct;
          listed = kept.listed;
          named = kept.named;
          unnamed = kept.unnamed;
        })
      ]

  rename_session-IsRegistered :
      (d : Daemon F Frame) (s : Session F) (new : Bytes)
      → find s.name d.sessions ≡ some s
      → IsRegistered d
      → IsRegistered (rename_session d s new).0
  unfolding rename_session has_session
  rename_session-IsRegistered d s [] q v = v
  rename_session-IsRegistered d s (b ∷ n) q v = elim (Option-cases (find (b ∷ n) d.sessions)) [
    | inr (t, e) ↦ rw e v
    | inl e ↦
        let free : has_name (b ∷ n) d.order ≡ false = v.listed (b ∷ n) ∙ rw e in
        let renamed = record s { name = b ∷ n } in
        rw e (record {
          distinct = replace_name-DistinctNames s.name (b ∷ n) d.order free v.distinct;
          listed = λ k. ground (
            arith,
            has_name-replace_name s.name (b ∷ n) k d.order free,
            find-put (b ∷ n) k renamed (delete s.name d.sessions),
            find-delete s.name k d.sessions,
            v.listed k,
            v.listed s.name,
          );
          named = λ k t h. ground (
            arith,
            find-put (b ∷ n) k renamed (delete s.name d.sessions),
            find-delete s.name k d.sessions,
            v.named k t,
            bytes_eq_iff (b ∷ n) k,
          );
          unnamed = ground (
            arith,
            find-put (b ∷ n) [] renamed (delete s.name d.sessions),
            find-delete s.name [] d.sessions,
            v.unnamed,
          );
        })
  ]

  -- A session changed in place.
  update-IsRegistered :
      (d : Daemon F Frame) (name : Bytes) (s s' : Session F)
      → find name d.sessions ≡ some s
      → s'.name ≡ s.name
      → IsRegistered d
      → IsRegistered (record d { sessions = put name s' d.sessions })
  update-IsRegistered d name s s' q e v = record {
    distinct = v.distinct;
    listed = λ n. ground (arith, find-put name n s' d.sessions, v.listed n, bytes_eq_iff name n);
    named = λ n t h.
        ground (
          arith,
          find-put name n s' d.sessions,
          v.named n t,
          v.named name s q,
          bytes_eq_iff name n,
        );
    unnamed = ground (arith, find-put name [] s' d.sessions, v.unnamed, bytes_eq_iff name []);
  }

  kill_session-IsRegistered :
      (d : Daemon F Frame) (name : Bytes) → IsRegistered d → IsRegistered (kill_session d name).0
  unfolding kill_session
  kill_session-IsRegistered d name v = elim (Option-cases (find name d.sessions)) [
    | inl q ↦ rw (q, kill_session) v
    | inr (s, q) ↦
        rw (q, kill_session)
          (session_emptied-IsRegistered _ name
            (update-IsRegistered d name s (shutdown s).0 q (unfold shutdown in refl) v))
  ]

module _ (f : Float64) where
  open f use {F}

  fit_session-name : (s : Session F) (size : ℕ × ℕ) → (fit_session f s size).0.name ≡ s.name
  unfolding fit_session resize
  fit_session-name s (cols, rows) = ground arith

module _ (f : Float64) {Frame : Type 0} where
  open f use {F}

  find-fit_each :
      (cs : List (ℕ × Client Frame)) (n : Bytes) (ss : List (Bytes × Session F))
      → (is_some (find n (fit_each f cs ss)) ≡ is_some (find n ss))
        × ((t : Session F)
            → find n (fit_each f cs ss) ≡ some t
            → (s : Session F) × (find n ss ≡ some s) × (t.name ≡ s.name))
  unfolding fit_each
  find-fit_each cs n [] = (refl, λ t h. absurd (ground arith))
  find-fit_each cs n ((name, s) ∷ ss) = elim (Bool-cases (bytes_eq name n)) [
    | inl e ↦ rw e (
      refl,
      λ t h. (s, refl, ap (λ (u : Session F). u.name) (sym (some_eq h)) ∙ fit_session-name f s _),
    )
    | inr e ↦ rw e (find-fit_each cs n ss)
  ]

  fit_sessions-IsRegistered :
      (d : Daemon F Frame) → IsRegistered d → IsRegistered (fit_sessions f d)
  unfolding fit_sessions
  fit_sessions-IsRegistered d v = record {
    distinct = v.distinct;
    listed = λ n. v.listed n ∙ sym (find-fit_each d.clients n d.sessions).0;
    named =
        λ n t h. let (s, q, e) = (find-fit_each d.clients n d.sessions).1 t h in e ∙ v.named n s q;
    unnamed = ground (arith, (find-fit_each d.clients [] d.sessions).0, v.unnamed);
  }

  -- What the goroutines of the daemon do to it, in any order; each is a critical section.
  pub data Step : Daemon F Frame → Daemon F Frame → Type 0 where
    publishes :
        (d : Daemon F Frame) (name : Bytes) (s : Session F)
        → s.name ≡ name
        → name ≢ []
        → Step d (publish d name s).0
    empties : (d : Daemon F Frame) (name : Bytes) → Step d (session_emptied d name).0
    kills : (d : Daemon F Frame) (name : Bytes) → Step d (kill_session d name).0
    renames :
        (d : Daemon F Frame) (s : Session F) (new : Bytes)
        → find s.name d.sessions ≡ some s
        → Step d (rename_session d s new).0
    changes :
        (d : Daemon F Frame) (s s' : Session F)
        → find s.name d.sessions ≡ some s
        → s'.name ≡ s.name
        → Step d (record d { sessions = put s.name s' d.sessions })
    attaches : (d : Daemon F Frame) (id : ℕ) (c : Client Frame) → Step d (add_client d id c)
    leaves : (d : Daemon F Frame) (id : ℕ) → Step d (forget_client d id)
    moves :
        (d : Daemon F Frame) (id : ℕ) (c : Client Frame)
        → Step d (record d { clients = modify id (λ _. c) d.clients })
    fits : (d : Daemon F Frame) → Step d (fit_sessions f d)
    stops : (d : Daemon F Frame) → Step d (shutdown_all d).0

  pub data Reach (s : Daemon F Frame) : Daemon F Frame → Type 0 where
    start : Reach s s
    next : {t u : Daemon F Frame} → Reach s t → Step t u → Reach s u

  Step-IsRegistered : {d e : Daemon F Frame} → Step d e → IsRegistered d → IsRegistered e
  Step-IsRegistered (publishes d name s p q) v = publish-IsRegistered d name s p q v
  Step-IsRegistered (empties d name) v = session_emptied-IsRegistered d name v
  Step-IsRegistered (kills d name) v = kill_session-IsRegistered d name v
  Step-IsRegistered (renames d s new p) v = rename_session-IsRegistered d s new p v
  Step-IsRegistered (changes d s s' p q) v = update-IsRegistered d s.name s s' p q v
  Step-IsRegistered (attaches d id c) v =
      unfold add_client in
      record { distinct = v.distinct; listed = v.listed; named = v.named; unnamed = v.unnamed }
  Step-IsRegistered (leaves d id) v =
      unfold forget_client in
      record { distinct = v.distinct; listed = v.listed; named = v.named; unnamed = v.unnamed }
  Step-IsRegistered (moves d id c) v = record {
    distinct = v.distinct;
    listed = v.listed;
    named = v.named;
    unnamed = v.unnamed;
  }
  Step-IsRegistered (fits d) v = fit_sessions-IsRegistered d v
  Step-IsRegistered (stops d) v =
      unfold shutdown_all in
      record {
        distinct = tt;
        listed = λ n. refl;
        named = λ n s h. absurd (ground arith);
        unnamed = refl;
      }

  -- From a daemon where this holds, such as one with no sessions, every state that any order of
  -- sessions published, emptied, killed, renamed (while they are there), changed and fitted, and
  -- of clients that come, move and go, and a shutdown, reaches: the order lists each session of
  -- the map once and nothing else, each session is held under its own name, and none under the
  -- empty name.
  pub Reach-IsRegistered : {d e : Daemon F Frame} → IsRegistered d → Reach d e → IsRegistered e
  Reach-IsRegistered v start = v
  Reach-IsRegistered v (next before st) = Step-IsRegistered st (Reach-IsRegistered v before)
