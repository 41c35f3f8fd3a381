-- ===== src/Sqlparser/Token/Total.antt =====
-- sqlparser/token.go: `Scan` and `Lex` answer a token for every input.
use cm.Common.{
  ℕ, zero, suc, ◌+◌, ◌<◌, ◌≡◌, refl, sym, ap, ◌∙◌, subst, Option, none, some, List, [], length,
  ◌==◌, if◌then◌else◌, Bool, true, false, not, ◌&&◌, arith, Bool-cases, inl, inr, ◌⊎◌,
}
use cm.Sqlparser.Token.{Tokenizer, Scanned, next, eofchar, comment}
use cm.Sqlparser.Token.Words.{is_letter, is_digit}
use cm.Sqlparser.Token.Scan.{Lexer, scan, lex, read_by, scan_reader, scan_symbol, at_token}
use cm.Sqlparser.Token.Progress.{remaining, next-remaining}
use cm.Sqlparser.Token.Ends.{Ends}
use cm.Sqlparser.Token.Symbols.{scan_reader-Ends, at_token-remaining}

abbrev pub Answer : Type 0
Answer = Option (ℕ × List ℕ × Lexer)

-- The token is the end, or it has taken a character.
abbrev pub Takes : Lexer → Answer → Type 0
Takes l none = ⊥
Takes l (some (typ, val, l')) = (typ ≡ 0) ⊎ (remaining l'.reader < remaining l.reader)

Takes-if :
    (l : Lexer) (b : Bool) (x y : Answer)
    → (b ≡ true → Takes l x)
    → (b ≡ false → Takes l y)
    → Takes l (if b then x else y)
Takes-if l true x y h k = h refl
Takes-if l false x y h k = k refl

scan_reader-eof :
    (t : Tokenizer) → (t.last_char == eofchar) ≡ true → scan_reader t ≡ some (0, [], next t)
unfolding scan_reader is_letter is_digit scan_symbol
scan_reader-eof t h = ground arith

by_reader :
    (l : Lexer) (n : ℕ) (x : Scanned) → Ends n x → n < remaining l.reader → Takes l (read_by l x)
by_reader l n none h k = h
by_reader l n (some (typ, val, t)) h k = inr (omega arith)

scan-Takes : (l : Lexer) → Takes l (scan l)
unfolding scan
scan-Takes l =
    let t = at_token l.reader in
    let n = l.pos_var_index + 1 in
    Takes-if l l.force_eof _ _ (λ _. inl refl)
      (λ _.
        Takes-if l (t.last_char == b'?') _ _
          (λ q. inr (ground (arith, at_token-remaining l.reader, next-remaining t)))
          (λ _. elim (Bool-cases (t.last_char == eofchar)) [
            | inl e ↦ subst (λ x. Takes l (read_by l x)) (sym (scan_reader-eof t e)) (inl refl)
            | inr e ↦
                by_reader l (length t.stream) (scan_reader t) (scan_reader-Ends t)
                  (ground (arith, at_token-remaining l.reader))
          ]))

-- Scan answers a token for every tokenizer, whatever characters it has left, and each token but the end
-- takes a character at least.
pub scan_total :
    (l : Lexer)
    → (typ : ℕ) × (val : List ℕ) × (l' : Lexer) × (scan l ≡ some (typ, val, l'))
      × ((typ ≡ 0) ⊎ (remaining l'.reader < remaining l.reader))
scan_total l = answered (scan l) refl (scan-Takes l)
  where
    answered :
        (x : Answer)
        → scan l ≡ x
        → Takes l x
        → (typ : ℕ) × (val : List ℕ) × (l' : Lexer) × (scan l ≡ some (typ, val, l'))
          × ((typ ≡ 0) ⊎ (remaining l'.reader < remaining l.reader))
    answered none e h = absurd h
    answered (some (typ, val, l')) e h = (typ, val, l', e, h)

lex_step :
    (fuel : ℕ) (l : Lexer) (typ : ℕ) (val : List ℕ) (l' : Lexer)
    → scan l ≡ some (typ, val, l')
    → lex (suc fuel) l
      ≡ (if typ == comment && not l.allow_comments then lex fuel l' else some (typ, val, l'))
unfolding lex
lex_step fuel l typ val l' e =
    ap
      (λ (x : Answer). elim x [
        | none ↦ none
        | some (typ, val, l') ↦
            let rest = lex fuel l' in
            if typ == comment && not l.allow_comments then rest else some (typ, val, l')
      ])
      e

-- Lex, which passes over comments, answers a token in at most one more rounds than there are characters
-- left.
pub lex_total :
    (fuel : ℕ) (l : Lexer)
    → remaining l.reader < fuel
    → (typ : ℕ) × (val : List ℕ) × (l' : Lexer) × (lex fuel l ≡ some (typ, val, l'))
lex_total zero l h = absurd (omega arith)
lex_total (suc fuel) l h =
    let (typ, val, l', e, took) = scan_total l in
    let step = lex_step fuel l typ val l' e in
    let chosen : Bool → Answer = λ b. if b then lex fuel l' else some (typ, val, l') in
    elim (Bool-cases (typ == comment && not l.allow_comments)) [
      | inl c ↦
          let less : remaining l'.reader < remaining l.reader = by_end typ took (ground arith) in
          let (typ', val', m, found) = lex_total fuel l' (omega (arith, less)) in
          (typ', val', m, step ∙ ap chosen c ∙ found)
      | inr c ↦ (typ, val, l', step ∙ ap chosen c)
    ]
  where
    by_end : (typ : ℕ) {m n : ℕ} → (typ ≡ 0) ⊎ (m < n) → (typ == comment) ≡ true → m < n
    by_end typ (inl z) c = absurd (ground arith)
    by_end typ (inr h) c = h
