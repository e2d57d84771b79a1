-- ===== src/Server/Command/RoundTrip.antt =====
-- Lemmas about tokenize of internal/server/command.go and JoinArgs of internal/client/client.go.
use mathlib.Core.List.{append_assoc, append-nil}
use ng_mux.Prelude.{
  ℕ, ◌≡◌, refl, sym, ap, ◌∙◌, arith, true, false, List, [], ◌∷◌, ◌++◌, Bytes, codes, ◌==◌,
  Bool-cases, inl, inr,
}
use ng_mux.Server.Command.Tokenize.{
  Tokens, flush, token_step, token_run, tokenize, needs_quotes, escape_quotes, quote_arg, join_args,
}

-- Inside single quotes, with `cur` read so far.
abbrev quoted : List Bytes → Bytes → Tokens
quoted out cur = record { out = out; cur = cur; in_word = true; quote = b'\'' }

abbrev in_word_at : List Bytes → Bytes → Tokens
in_word_at out cur = record { out = out; cur = cur; in_word = true; quote = 0 }

abbrev between : List Bytes → Tokens
between out = record { out = out; cur = []; in_word = false; quote = 0 }

run_escaped :
    (a : Bytes) (out : List Bytes) (cur rest : Bytes)
    → token_run (quoted out cur) (escape_quotes a ++ rest) ≡ token_run (quoted out (cur ++ a)) rest
unfolding token_run token_step escape_quotes
run_escaped [] out cur rest = rw append-nil
run_escaped (c ∷ a) out cur rest = elim (Bool-cases (c == b'\'')) [
  | inl is_quote ↦
      ground (arith, run_escaped a out (cur ++ c ∷ []) rest, append_assoc cur (c ∷ []) a)
  | inr plain ↦ ground (arith, run_escaped a out (cur ++ c ∷ []) rest, append_assoc cur (c ∷ []) a)
]

run_plain :
    (a : Bytes) (out : List Bytes) (cur rest : Bytes)
    → needs_quotes a ≡ false
    → token_run (in_word_at out cur) (a ++ rest) ≡ token_run (in_word_at out (cur ++ a)) rest
unfolding token_run token_step needs_quotes
run_plain [] out cur rest h = rw append-nil
run_plain (c ∷ a) out cur rest h =
    ground (arith, run_plain a out (cur ++ c ∷ []) rest, append_assoc cur (c ∷ []) a)

run_quoted :
    (a : Bytes) (out : List Bytes) (rest : Bytes)
    → token_run (between out) ((codes "'" ++ (escape_quotes a ++ codes "'")) ++ rest)
      ≡ token_run (in_word_at out a) rest
unfolding token_run token_step
run_quoted a out rest =
    ap (token_run (quoted out [])) (append_assoc (escape_quotes a) (codes "'") rest)
    ∙ run_escaped a out [] (b'\'' ∷ rest)

run_bare :
    (c : ℕ) (a : Bytes) (out : List Bytes) (rest : Bytes)
    → needs_quotes (c ∷ a) ≡ false
    → token_run (between out) ((c ∷ a) ++ rest) ≡ token_run (in_word_at out (c ∷ a)) rest
unfolding token_run token_step needs_quotes
run_bare c a out rest h = ground (arith, run_plain a out (c ∷ []) rest)

run-quote_arg :
    (a : Bytes) (out : List Bytes) (rest : Bytes)
    → token_run (between out) (quote_arg a ++ rest) ≡ token_run (in_word_at out a) rest
unfolding quote_arg
run-quote_arg [] out rest = run_quoted [] out rest
run-quote_arg (c ∷ a) out rest = elim (Bool-cases (needs_quotes (c ∷ a))) [
  | inl special ↦ rw (special, quote_arg) (run_quoted (c ∷ a) out rest)
  | inr plain ↦ rw (plain, quote_arg) (run_bare c a out rest plain)
]

run-join_args :
    (a : Bytes) (rest : List Bytes) (out : List Bytes)
    → (flush (token_run (between out) (join_args (a ∷ rest)))).out ≡ out ++ a ∷ rest
unfolding join_args flush
run-join_args a [] out =
    ap (λ (t : Tokens). (flush t).out)
      (ap (token_run (between out)) (sym (append-nil (quote_arg a))) ∙ run-quote_arg a out [])
    ∙ (unfold token_run in refl)
run-join_args a (b ∷ rest) out =
    ap (λ (t : Tokens). (flush t).out)
      (run-quote_arg a out (b' ' ∷ join_args (b ∷ rest)) ∙ next_word)
    ∙ run-join_args b rest (out ++ a ∷ [])
    ∙ append_assoc out (a ∷ []) (b ∷ rest)
  where
    next_word :
        token_run (in_word_at out a) (b' ' ∷ join_args (b ∷ rest))
        ≡ token_run (between (out ++ a ∷ [])) (join_args (b ∷ rest))
    next_word = unfold token_run token_step in refl

-- Tokenizing the command line that JoinArgs makes of any arguments, empty ones and ones with
-- blanks and quotes included, gives the arguments back.
pub tokenize-join_args : (args : List Bytes) → tokenize (join_args args) ≡ args
unfolding tokenize
tokenize-join_args [] = unfold join_args token_run in refl
tokenize-join_args (a ∷ rest) = run-join_args a rest []
