-- ===== src/Server/Command/Tokenize.antt =====
-- tokenize of internal/server/command.go, and quoteArg and JoinArgs of internal/client/client.go.
use ng_mux.Prelude.{
  ℕ, Bool, true, false, not, ◌&&◌, ◌||◌, List, [], ◌∷◌, ◌++◌, Bytes, codes, contains, if◌then◌else◌,
  ◌==◌,
}

-- The variables of the loop; `quote` is 0 outside quotes.
pub record Tokens : Type 0 where
  pub out : List Bytes
  pub cur : Bytes
  pub in_word : Bool
  pub quote : ℕ

unfoldable pub flush : Tokens → Tokens
flush s = if s.in_word then record s { out = s.out ++ s.cur ∷ []; cur = []; in_word = false } else s

unfoldable pub token_step : Tokens → ℕ → Tokens
unfolding flush
token_step s c =
    if not (s.quote == 0)
    then (if c == s.quote
        then record s { quote = 0; in_word = true }
        else record s { cur = s.cur ++ c ∷ []; in_word = true })
    else if c == b'"' || c == b'\''
    then record s { quote = c; in_word = true }
    else if c == b' ' || c == b'\t'
    then flush s
    else record s { cur = s.cur ++ c ∷ []; in_word = true }

unfoldable pub token_run : Tokens → Bytes → Tokens
token_run s [] = s
token_run s (c ∷ line) = token_run (token_step s c) line

unfoldable pub tokenize : Bytes → List Bytes
unfolding flush
tokenize line =
    (flush (token_run (record { out = []; cur = []; in_word = false; quote = 0 }) line)).out

-- strings.ContainsAny(a, " \t\"'")
unfoldable pub needs_quotes : Bytes → Bool
needs_quotes a = contains b' ' a || contains b'\t' a || contains b'"' a || contains b'\'' a

-- strings.ReplaceAll(a, "'", `'"'"'`)
unfoldable pub escape_quotes : Bytes → Bytes
escape_quotes [] = []
escape_quotes (c ∷ a) =
    if c == b'\'' then codes "'\"'\"'" ++ escape_quotes a else c ∷ escape_quotes a

abbrev pub is_empty : Bytes → Bool
is_empty [] = true
is_empty (x ∷ xs) = false

unfoldable pub quote_arg : Bytes → Bytes
quote_arg a =
    if not (is_empty a) && not (needs_quotes a)
    then a
    else codes "'" ++ (escape_quotes a ++ codes "'")

-- strings.Join(quoted, " ") over the quoted arguments.
unfoldable pub join_args : List Bytes → Bytes
join_args [] = []
join_args (a ∷ []) = quote_arg a
join_args (a ∷ b ∷ rest) = quote_arg a ++ (b' ' ∷ join_args (b ∷ rest))
