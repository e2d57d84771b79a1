-- ===== src/Server/Viewers/Moving.antt =====
-- Moving a client of internal/server/server.go from session to session.
use ng_mux.Prelude.{
  ℕ, zero, suc, ◌+◌, ◌-◌, ◌%◌, ◌≤◌, ◌<◌, ◌≡◌, inl, inr, refl, ap, arith, Bool, true, false, not,
  List, [], ◌∷◌, some, length, get_elem?, Bytes, bytes_eq, bytes_eq_iff, has_name, DistinctNames,
  around, Bool-cases,
}
use ng_mux.Server.Client.{Client, set_session}
use ng_mux.Server.Viewers.{index_of, step_index, step_client_session}

index_of-has_name :
    (name : Bytes) (ns : List Bytes)
    → has_name name ns ≡ true
    → (i : ℕ) × (index_of name ns ≡ some i) × (get_elem? ns i ≡ some name) × (i < length ns)
index_of-has_name name [] h = absurd (ground arith)
index_of-has_name name (n ∷ ns) h = elim (Bool-cases (bytes_eq n name)) [
  | inl e ↦ (0, rw e, ap some ((bytes_eq_iff n name).0 e), omega arith)
  | inr e ↦
      let (i, found, there, inside) = index_of-has_name name ns (ground arith) in
      (suc i, rw (e, found) (ground arith), there, omega arith)
]

get_elem?-inside :
    (ns : List Bytes) (i : ℕ) → i < length ns → (n : Bytes) × (get_elem? ns i ≡ some n)
get_elem?-inside [] i h = elim h [ ]
get_elem?-inside (n ∷ ns) zero h = (n, refl)
get_elem?-inside (n ∷ ns) (suc i) h = get_elem?-inside ns i (omega arith)

get_elem?-has_name :
    (ns : List Bytes) (i : ℕ) (n : Bytes) → get_elem? ns i ≡ some n → has_name n ns ≡ true
get_elem?-has_name [] i n h = absurd (ground arith)
get_elem?-has_name (x ∷ ns) zero n h = ground (arith, bytes_eq_iff x n)
get_elem?-has_name (x ∷ ns) (suc i) n h = ground (arith, get_elem?-has_name ns i n h)

index_of-get_elem? :
    (ns : List Bytes) (i : ℕ) (n : Bytes)
    → DistinctNames ns
    → get_elem? ns i ≡ some n
    → index_of n ns ≡ some i
index_of-get_elem? [] i n d h = absurd (ground arith)
index_of-get_elem? (x ∷ ns) zero n d h = ground (arith, bytes_eq_iff x n)
index_of-get_elem? (x ∷ ns) (suc i) n d h =
    ground (arith, bytes_eq_iff x n, get_elem?-has_name ns i n h, index_of-get_elem? ns i n d.1 h)

step_index-inside : (i n : ℕ) (forward : Bool) → 2 ≤ n → step_index i n forward < n
unfolding step_index
step_index-inside i n true h = grind arith
step_index-inside i n false h = grind arith

step_index-back :
    (i n : ℕ) (forward : Bool)
    → 2 ≤ n
    → i < n
    → step_index (step_index i n forward) n (not forward) ≡ i
unfolding step_index
step_index-back i n true h p = ground (arith, around (i + 1) n, around ((i + 1) % n + n - 1) n)
step_index-back i n false h p = ground (arith, around (i + n - 1) n, around ((i + n - 1) % n + 1) n)

module _ {Frame : Type 0} (order : List Bytes) where
  -- A step from the session at an index.
  step_at :
      (c : Client Frame) (forward : Bool) (i : ℕ) (name : Bytes)
      → 2 ≤ length order
      → index_of c.sess order ≡ some i
      → get_elem? order (step_index i (length order) forward) ≡ some name
      → step_client_session order c forward ≡ some (set_session c name)
  unfolding step_client_session
  step_at c forward i name long here there = ground arith

  -- A client that steps to the next session and then to the previous one, or the other way
  -- round, is back at the session that it viewed, and was at a session of the order in between,
  -- where the order has no name twice, at least two names, and that of the client's session.
  step_client_session-back :
      (c : Client Frame) (forward : Bool)
      → DistinctNames order
      → 2 ≤ length order
      → has_name c.sess order ≡ true
      → (c' c'' : Client Frame) × (step_client_session order c forward ≡ some c')
        × (has_name c'.sess order ≡ true)
        × (step_client_session order c' (not forward) ≡ some c'')
        × (c''.sess ≡ c.sess)
  unfolding set_session
  step_client_session-back c forward d long h =
      let (i, here, there, inside) = index_of-has_name c.sess order h in
      let n = length order in
      let (name, found) =
        get_elem?-inside order (step_index i n forward) (step_index-inside i n forward long) in
      let back : get_elem? order (step_index (step_index i n forward) n (not forward))
          ≡ some c.sess =
        (rw (step_index-back i n forward long inside) there) in
      (
        set_session c name,
        set_session (set_session c name) c.sess,
        step_at c forward i name long here found,
        get_elem?-has_name order (step_index i n forward) name found,
        step_at (set_session c name) (not forward) (step_index i n forward) c.sess long
            (index_of-get_elem? order (step_index i n forward) name d found) back,
        refl,
      )
