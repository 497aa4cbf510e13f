-- ===== src/Shell/Lexer/Quoting.antt =====
-- internal/shellcmd/lexer.go: words in quotes, split by SplitLine.
use nex_talk.Base.{
  ◌≡◌, sym, ap, ◌∙◌, true, false, none, some, List, [], ◌∷◌, ◌++◌, append_assoc, append-nil, Bytes,
  ◌==◌, ok, All,
}
use nex_talk.Shell.Lexer.{
  Lexer, double_quote, flush, is_blank, step, step_quoted, step_plain, scan, finish, split_line,
}

-- A line that names the words, each in double quotes and with a blank behind it.
unfoldable pub quote_word : Bytes → Bytes → Bytes
quote_word w rest = double_quote ∷ w ++ double_quote ∷ 32 ∷ rest

unfoldable pub quote_words : List Bytes → Bytes
quote_words [] = []
quote_words (w ∷ ws) = quote_word w (quote_words ws)

abbrev pub HasNoQuote : Bytes → Type 0
HasNoQuote w = All (λ c. (c == double_quote) ≡ false) w

-- The state between two words, and in a quoted one.
abbrev between : List Bytes → Lexer
between out = record { out = out; word = []; quote = none; have = false }

abbrev within : List Bytes → Bytes → Lexer
within out word = record { out = out; word = word; quote = some double_quote; have = true }

scan_quoted :
    (out : List Bytes) (word w rest : Bytes)
    → HasNoQuote w
    → scan (within out word) (w ++ double_quote ∷ 32 ∷ rest)
      ≡ scan (between (out ++ (word ++ w) ∷ [])) rest
unfolding scan step step_quoted step_plain flush is_blank
scan_quoted out word [] rest h =
    ap (λ v. scan (between (out ++ v ∷ [])) rest) (sym (append-nil word))
scan_quoted out word (c ∷ w) rest (h, hs) =
    rw (scan, step, step_quoted, h)
      (scan_quoted out (word ++ c ∷ []) w rest hs
        ∙ ap (λ v. scan (between (out ++ v ∷ [])) rest) (append_assoc word (c ∷ []) w))

scan-quote_words :
    (out ws : List Bytes)
    → All HasNoQuote ws
    → scan (between out) (quote_words ws) ≡ between (out ++ ws)
unfolding scan step step_plain quote_words quote_word
scan-quote_words out [] h = ap between (sym (append-nil out))
scan-quote_words out (w ∷ ws) (h, hs) =
    scan_quoted out [] w (quote_words ws) h
    ∙ scan-quote_words (out ++ w ∷ []) ws hs
    ∙ ap between (append_assoc out (w ∷ []) ws)

-- Words in double quotes are split to themselves, whatever blanks, single quotes and backslashes they
-- hold, and empty ones too, as long as none holds a double quote.
split_line-quote_words : (ws : List Bytes) → All HasNoQuote ws → split_line (quote_words ws) ≡ ok ws
unfolding split_line finish flush
split_line-quote_words ws h = ap finish (scan-quote_words [] ws h)
