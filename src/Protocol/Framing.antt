-- ===== src/Protocol/Framing.antt =====
-- Reading back what internal/protocol/protocol.go writes.
use ng_mux.Prelude.{
  ℕ, zero, suc, ◌+◌, ◌^◌, ◌≤◌, ◌<◌, ◌≡◌, refl, sym, ap, ◌∙◌, arith, false, List, [], ◌∷◌, ◌++◌,
  Option, if◌then◌else◌, ◌==◌, ◌||◌, none, some, ltb, length, take, Bytes, All, length-append,
  length-take,
}
use mathlib.Core.List.{append_assoc, append-nil}
use ng_mux.Protocol.{
  Message, Json, max_frame, put_u32, get_u32, WriteResult, written, marshal_failed, too_large,
  write_payload, write, read_full, full, eof, unexpected_eof, ReadResult, cut_off, received, ended,
  decode, read_body, read,
}

-- The JSON of a message, where it has one, is read back as that message. (encoding/json replaces
-- bytes of a string that are not UTF-8.)
abbrev pub ReadsBack : Json → Message → Type 0
ReadsBack json m =
    (payload : Bytes) → json.marshal m ≡ some payload → json.unmarshal payload ≡ some m

get_u32-put_u32 : (n : ℕ) → n < 2 ^ 32 → get_u32 (put_u32 n) ≡ n
unfolding get_u32 put_u32
get_u32-put_u32 n h = omega arith

read_full-append : (xs ys : Bytes) → read_full (length xs) (xs ++ ys) ≡ full xs ys
unfolding read_full
read_full-append [] ys = refl
read_full-append (x ∷ xs) ys = rw (read_full-append xs ys)

-- Too few bytes, none or some.
read_full-none : (n : ℕ) → 1 ≤ n → read_full n [] ≡ eof
unfolding read_full
read_full-none zero h = elim h [ ]
read_full-none (suc n) h = refl

read_full-short :
    (n b : ℕ) (xs : Bytes) → length (b ∷ xs) < n → read_full n (b ∷ xs) ≡ unexpected_eof
unfolding read_full
read_full-short zero b xs h = elim h [ ]
read_full-short (suc n) b [] h = rw (read_full-none n (omega arith)) refl
read_full-short (suc n) b (x ∷ xs) h = rw (read_full-short n x xs (omega arith)) refl

-- What a frame holds.
payload_of :
    (o : Option Bytes) (bs : Bytes)
    → write_payload o ≡ written bs
    → (payload : Bytes) × (o ≡ some payload)
      × (length payload ≤ max_frame)
      × (bs ≡ put_u32 (length payload) ++ payload)
unfolding write_payload
payload_of none bs h = absurd (ground arith)
payload_of (some payload) bs h = (payload, refl, ground arith, ground arith)

read_header :
    (n : ℕ) (payload rest : Bytes)
    → read_full 4 ((put_u32 n ++ payload) ++ rest) ≡ full (put_u32 n) (payload ++ rest)
unfolding read_full put_u32
read_header n payload rest = refl

unfoldable pub followed_by : WriteResult → Option Bytes → Option Bytes
followed_by (written bs) (some rest) = some (bs ++ rest)
followed_by (written bs) none = none
followed_by marshal_failed o = none
followed_by (too_large n) o = none

followed_by-eq-some :
    (r : WriteResult) (o : Option Bytes) (bs : Bytes)
    → followed_by r o ≡ some bs
    → (front rest : Bytes) × (r ≡ written front) × (o ≡ some rest) × (bs ≡ front ++ rest)
unfolding followed_by
followed_by-eq-some (written front) (some rest) bs h = (front, rest, refl, refl, ground arith)
followed_by-eq-some (written front) none bs h = absurd (ground arith)
followed_by-eq-some marshal_failed o bs h = absurd (ground arith)
followed_by-eq-some (too_large n) o bs h = absurd (ground arith)

module _ (json : Json) where
  read_frame :
      (payload rest : Bytes)
      → length payload ≤ max_frame
      → read json ((put_u32 (length payload) ++ payload) ++ rest) ≡ decode json (full payload rest)
  unfolding read
  read_frame payload rest h = rw (read_header (length payload) payload rest) (
      unfold read_body in
      (let fits : ltb max_frame (length payload) ≡ false = ground arith in
        rw (get_u32-put_u32 (length payload) (omega arith), fits, read_full-append payload rest)
          refl))

  -- What Write puts on the stream is read as the same message, whatever comes after it, and all
  -- that comes after it is left, for a message whose JSON reads back.
  pub read-write :
      (m : Message) (bs rest : Bytes)
      → ReadsBack json m
      → write json m ≡ written bs
      → read json (bs ++ rest) ≡ received m rest
  unfolding write decode
  read-write m bs rest inv h =
      let (payload, e, fits, shape) = payload_of (json.marshal m) bs h in
      rw shape (read_frame payload rest fits ∙ rw (inv payload e, decode))

  cut_payload :
      (j : ℕ) (payload : Bytes)
      → j < length payload
      → decode json (read_full (length payload) (take j payload))
        ≡ (if j == 0 then ended else cut_off)
  unfolding decode
  cut_payload zero payload p = rw (read_full-none (length payload) p) refl
  cut_payload (suc j) [] p = elim p [ ]
  cut_payload (suc j) (x ∷ xs) p =
      rw (read_full-short (length (x ∷ xs)) x (take j xs) (omega (arith, length-take j xs)))
        (ground arith)

  -- The error for a frame cut after so many bytes.
  abbrev pub cut_error : ℕ → ReadResult
  cut_error k = if k == 0 || k == 4 then ended else cut_off

  shifted : (j : ℕ) → (if j == 0 then ended else cut_off) ≡ cut_error (suc (suc (suc (suc j))))
  shifted j = ground arith

  cut_frame :
      (k : ℕ) (payload : Bytes)
      → length payload ≤ max_frame
      → k < 4 + length payload
      → read json (take k (put_u32 (length payload) ++ payload)) ≡ cut_error k
  unfolding read read_body put_u32 read_full
  cut_frame zero payload fits p = refl
  cut_frame (suc zero) payload fits p = refl
  cut_frame (suc (suc zero)) payload fits p = refl
  cut_frame (suc (suc (suc zero))) payload fits p = refl
  cut_frame (suc (suc (suc (suc j)))) payload fits p =
      let few : ltb max_frame (length payload) ≡ false = ground arith in
      rw (get_u32-put_u32 (length payload) (omega arith), few)
        (cut_payload j payload (omega arith) ∙ shifted j)

  length-put_u32 : (n : ℕ) → length (put_u32 n) ≡ 4
  unfolding put_u32
  length-put_u32 n = refl

  -- A frame that is cut short, by whatever number of bytes, is reported as io.EOF where the cut
  -- leaves nothing or just the header, and as io.ErrUnexpectedEOF anywhere else.
  pub read-cut :
      (m : Message) (bs : Bytes) (k : ℕ)
      → write json m ≡ written bs
      → k < length bs
      → read json (take k bs) ≡ cut_error k
  unfolding write
  read-cut m bs k h p =
      let (payload, e, fits, shape) = payload_of (json.marshal m) bs h in
      let total : length bs ≡ 4 + length payload =
        (ap length shape
          ∙ length-append (put_u32 (length payload)) payload
          ∙ ap (λ t. t + length payload) (length-put_u32 (length payload))) in
      rw shape (cut_frame k payload fits (omega arith))

  -- As many messages as asked for, while there are any.
  pub read_all : ℕ → Bytes → List Message
  read_all zero bs = []
  read_all (suc n) bs = elim (read json bs) [ received m rest ↦ m ∷ read_all n rest | _ ↦ [] ]

  -- The stream after a Write of each message; none where one fails.
  unfoldable pub write_all : List Message → Option Bytes
  write_all [] = some []
  write_all (m ∷ ms) = followed_by (write json m) (write_all ms)

  -- One more Write.
  pub write_all-one_more :
      (ms : List Message) (m : Message) (bs frame : Bytes)
      → write_all ms ≡ some bs
      → write json m ≡ written frame
      → write_all (ms ++ m ∷ []) ≡ some (bs ++ frame)
  unfolding write_all followed_by
  write_all-one_more [] m bs frame h e = rw e (ap some (append-nil frame) ∙ ground arith)
  write_all-one_more (x ∷ ms) m bs frame h e =
      let (front, rest, sent, later, shape) =
        followed_by-eq-some (write json x) (write_all ms) bs h in
      rw (shape, sent, write_all-one_more ms m rest frame later e)
        (ap some (sym (append_assoc front rest frame)))

  read_all-one :
      (m : Message) (ms : List Message) (bs rest : Bytes)
      → ReadsBack json m
      → write json m ≡ written bs
      → read_all (length ms) rest ≡ ms
      → read_all (suc (length ms)) (bs ++ rest) ≡ m ∷ ms
  unfolding read_all
  read_all-one m ms bs rest inv h ih =
      rw (read-write m bs rest inv h, read_all) (ap (λ t. m ∷ t) ih)

  -- Messages written one after the other are read back as they were written, whatever follows
  -- them, where their JSON reads back.
  pub read_all-write_all :
      (ms : List Message) (bs more : Bytes)
      → All (ReadsBack json) ms
      → write_all ms ≡ some bs
      → read_all (length ms) (bs ++ more) ≡ ms
  read_all-write_all [] bs more inv h = unfold read_all in refl
  read_all-write_all (m ∷ ms) bs more inv h =
      let (front, rest, sent, later, shape) =
        followed_by-eq-some (write json m) (write_all ms) bs (unfold write_all in h) in
      rw (shape, append_assoc front rest more)
        (read_all-one m ms front (rest ++ more) inv.0 sent
          (read_all-write_all ms rest more inv.1 later))
