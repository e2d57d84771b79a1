-- ===== src/Protocol/Sending/Interleaving.antt =====
-- Messages that several goroutines write to one connection of internal/protocol/protocol.go.
use mathlib.Core.List.{append_assoc, append-nil}
use ng_mux.Prelude.{
  ℕ, ◌≡◌, ◌⊎◌, inl, inr, refl, sym, ap, ◌∙◌, arith, Bool, true, false, List, [], ◌∷◌, ◌++◌, some,
  Bytes, take, drop, take-append-drop, length, All, Bool-cases, subst,
}
use ng_mux.Protocol.{Message, Json, WriteResult, written, marshal_failed, too_large, write}
use ng_mux.Protocol.Framing.{ReadsBack, write_all, write_all-one_more, read_all, read_all-write_all}
use ng_mux.Protocol.Sending.{
  Sender, Conn, new_conn, lock, begin_write, emit, finish, fail, Step, begins, emits, finishes,
  fails, Reach, start, next,
}

-- Who holds the lock.
abbrev Held : Bool → List Sender → Type 0
Held false [] = Unit {0}
Held true (s ∷ []) = Unit
Held _ _ = ⊥

module _ (json : Json) where
  -- The frame of a caller: what is on the stream, and what is left.
  abbrev Half : List Sender → Bytes → Type 0
  Half [] front = front ≡ []
  Half (s ∷ ss) front = write json s.message ≡ written (front ++ s.left)

  -- The stream holds whole frames, in the order in which their Writes returned, and the front of
  -- the frame that is being written.
  record IsFramed (c : Conn) : Type 0 where
    frames : Bytes
    front : Bytes
    whole : write_all json c.sent ≡ some frames
    shape : c.wire ≡ frames ++ front
    half : Half c.senders front

  record Inv (c : Conn) : Type 0 where
    held : Held c.locked c.senders
    framed : (c.failed ≡ true) ⊎ IsFramed c

  one_sender :
      (b : Bool) (ss before : List Sender) (s : Sender) (after : List Sender)
      → Held b ss
      → ss ≡ before ++ s ∷ after
      → (b ≡ true) × (before ≡ []) × (after ≡ []) × (ss ≡ s ∷ [])
  one_sender false [] [] s after h e = absurd (ground arith)
  one_sender false [] (b ∷ bs) s after h e = absurd (ground arith)
  one_sender false (t ∷ ts) before s after h e = absurd h
  one_sender true [] before s after h e = absurd h
  one_sender true (t ∷ u ∷ ts) before s after h e = absurd h
  one_sender true (t ∷ []) [] s after h e = ground arith
  one_sender true (t ∷ []) (b ∷ []) s after h e = absurd (ground arith)
  one_sender true (t ∷ []) (b ∷ d ∷ bs) s after h e = absurd (ground arith)

  initial-Inv : Inv new_conn
  initial-Inv = record {
    held = tt;
    framed = inr (record {
      frames = [];
      front = [];
      whole = unfold write_all in refl;
      shape = refl;
      half = refl;
    });
  }

  not-Held : (b : Bool) (ss : List Sender) → b ≡ false → Held b ss → ss ≡ []
  not-Held false [] e h = refl
  not-Held false (s ∷ ss) e h = absurd h
  not-Held true ss e h = absurd (ground arith)

  free_lock :
      (c : Conn) (m : Message) (buf : Bytes)
      → c.senders ≡ []
      → write json m ≡ written buf
      → Inv c
      → Inv (record c { locked = true; senders = record { message = m; left = buf } ∷ [] })
  free_lock c m buf e w v = record {
    held = tt;
    framed = elim (v.framed) [
      | inl f ↦ inl f
      | inr i ↦ inr (record {
        frames = i.frames;
        front = [];
        whole = i.whole;
        shape = i.shape ∙ ap (◌++◌ (i.frames)) (subst (λ x. Half x i.front) e i.half);
        half = w;
      })
    ];
  }

  lock-Inv :
      (c d : Conn) (m : Message) (buf : Bytes)
      → write json m ≡ written buf
      → lock c m buf ≡ some d
      → Inv c
      → Inv d
  unfolding lock
  lock-Inv c d m buf w h v = elim (Bool-cases c.locked) [
    | inl e ↦ absurd (ground arith)
    | inr e ↦
        let none_there = not-Held c.locked c.senders e v.held in
        subst Inv (ground arith) (free_lock c m buf none_there w v)
  ]

  begin_write-Inv :
      (r : WriteResult) (c d : Conn) (m : Message)
      → write json m ≡ r
      → begin_write c m r ≡ some d
      → Inv c
      → Inv d
  unfolding begin_write
  begin_write-Inv (written buf) c d m w h v = lock-Inv c d m buf w h v
  begin_write-Inv marshal_failed c d m w h v = subst Inv (ground arith) v
  begin_write-Inv (too_large n) c d m w h v = subst Inv (ground arith) v

  emit-Inv :
      (c : Conn) (s : Sender) (k : ℕ)
      → c.locked ≡ true
      → c.senders ≡ s ∷ []
      → Inv c
      → Inv (emit c [] s [] k)
  unfolding emit
  emit-Inv c s k b e v = record {
    held = rw b tt;
    framed = elim (v.framed) [
      | inl f ↦ inl f
      | inr i ↦ inr (record {
        frames = i.frames;
        front = i.front ++ take k s.left;
        whole = i.whole;
        shape =
            ap (λ x. x ++ take k s.left) i.shape ∙ append_assoc i.frames i.front (take k s.left);
        half =
            subst (λ x. Half x i.front) e i.half
            ∙ ap (λ x. written (i.front ++ x)) (sym (take-append-drop k s.left))
            ∙ ap written (sym (append_assoc i.front (take k s.left) (drop k s.left)));
      })
    ];
  }

  finish-Inv :
      (c : Conn) (s : Sender) → c.senders ≡ s ∷ [] → s.left ≡ [] → Inv c → Inv (finish c [] s [])
  unfolding finish
  finish-Inv c s e n v = record {
    held = tt;
    framed = elim (v.framed) [
      | inl f ↦ inl f
      | inr i ↦ inr (record {
        frames = i.frames ++ i.front;
        front = [];
        whole = write_all-one_more json c.sent s.message i.frames i.front i.whole (
            subst (λ x. Half x i.front) e i.half
            ∙ ap (λ x. written (i.front ++ x)) n
            ∙ ap written (append-nil i.front));
        shape = i.shape ∙ sym (append-nil (i.frames ++ i.front));
        half = refl;
      })
    ];
  }

  Step-Inv : {c d : Conn} → Step json c d → Inv c → Inv d
  unfolding fail
  Step-Inv (begins c d m h) v = begin_write-Inv (write json m) c d m refl h v
  Step-Inv (emits c before s after k e) v =
      let (busy, no_before, no_after, lone) =
        one_sender c.locked c.senders before s after v.held e in
      rw (no_before, no_after) (emit-Inv c s k busy lone v)
  Step-Inv (finishes c before s after e n) v =
      let (busy, no_before, no_after, lone) =
        one_sender c.locked c.senders before s after v.held e in
      rw (no_before, no_after) (finish-Inv c s lone n v)
  Step-Inv (fails c before s after e) v =
      let (busy, no_before, no_after, lone) =
        one_sender c.locked c.senders before s after v.held e in
      rw (no_before, no_after) (record { held = tt; framed = inl refl })

  Reach-Inv_of : {c : Conn} → Reach json c → Inv c
  Reach-Inv_of start = initial-Inv
  Reach-Inv_of (next r st) = Step-Inv st (Reach-Inv_of r)

  -- Whatever goroutines call Write on one connection, in any interleaving and with the stream
  -- taking the bytes of each a piece at a time: as long as no Write of the stream has failed,
  -- the messages whose Write has returned are read back whole and in the order in which it
  -- returned, whatever part of another frame follows them, where their JSON reads back.
  pub Reach-read_all :
      {c : Conn}
      → Reach json c
      → c.failed ≡ false
      → All (ReadsBack json) c.sent
      → read_all json (length c.sent) c.wire ≡ c.sent
  Reach-read_all {c} r ok inv = elim ((Reach-Inv_of r).framed) [
    | inl f ↦ absurd (ground arith)
    | inr v ↦ rw (v.shape) (read_all-write_all json c.sent v.frames v.front inv v.whole)
  ]
