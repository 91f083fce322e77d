-- ===== src/Chat/Format.antt =====
-- Messages as lines: what `process_json_format` makes of a printed JSON text.
use ntu_system_programming.Common.{
  ℕ, ◌+◌, ◌≤◌, ◌≡◌, ◌≢◌, refl, true, some, [], ◌∷◌, ◌++◌, arith, ltb, lt→ltb, ◌==◌, if◌then◌else◌,
  length, length-append, Bool-cases, inl, inr,
}
use mathlib.Core.Path.{subst}
use ntu_system_programming.Chat.{Text, drop_newlines, process_json_format, occurrences}

drop-occurrences :
    (c : ℕ) (t : Text) → occurrences c (drop_newlines t) ≡ (if c == 10 then 0 else occurrences c t)
unfolding drop_newlines occurrences
drop-occurrences c [] = ground arith
drop-occurrences c (b ∷ bs) = ground (arith, drop-occurrences c bs)

pub occurrences-append :
    (c : ℕ) (s t : Text) → occurrences c (s ++ t) ≡ occurrences c s + occurrences c t
unfolding occurrences
occurrences-append c [] t = omega arith
occurrences-append c (b ∷ bs) t = ground (arith, occurrences-append c bs t)

length-drop_newlines : (t : Text) → length (drop_newlines t) + occurrences 10 t ≡ length t
unfolding drop_newlines occurrences
length-drop_newlines [] = refl
length-drop_newlines (b ∷ bs) = ground (arith, length-drop_newlines bs)

-- The second text is the first without its newlines, all other bytes in their order.
pub data WithoutNewlines : Text → Text → Type 0 where
  ended : WithoutNewlines [] []
  left_out : (str line : Text) → WithoutNewlines str line → WithoutNewlines (10 ∷ str) line
  taken :
      (b : ℕ) (str line : Text)
      → b ≢ 10
      → WithoutNewlines str line
      → WithoutNewlines (b ∷ str) (b ∷ line)

drop_newlines-WithoutNewlines : (t : Text) → WithoutNewlines t (drop_newlines t)
unfolding drop_newlines
drop_newlines-WithoutNewlines [] = ended
drop_newlines-WithoutNewlines (b ∷ bs) = elim (Bool-cases (b == 10)) [
  | inl newline ↦
      let is : 10 ≡ b = ground (arith, newline) in
      rw newline (
        subst (λ c. WithoutNewlines (c ∷ bs) (drop_newlines bs)) is
          (left_out bs (drop_newlines bs) (drop_newlines-WithoutNewlines bs)))
  | inr other ↦
      rw other
        (taken b bs (drop_newlines bs) (ground (arith, other)) (drop_newlines-WithoutNewlines bs))
]

pub process_json_format-some :
    (str : Text)
    → 2 ≤ occurrences 10 str
    → process_json_format str ≡ some (drop_newlines str ++ 10 ∷ [])
unfolding process_json_format
process_json_format-some str two =
    let fits : ltb (length (drop_newlines str ++ 10 ∷ [])) (length str) ≡ true =
      lt→ltb _ _
        (omega (arith, length-append (drop_newlines str) (10 ∷ []), length-drop_newlines str)) in
    rw fits refl

-- A text with two newlines or more, as the print of an object with items has, is formatted as one line:
-- all its bytes but the newlines in their order and then one newline, as often as they stood, and with
-- its NUL it fits the bytes that were allocated.
pub process_json_format_lem :
    (str : Text)
    → 2 ≤ occurrences 10 str
    → (line : Text) × (process_json_format str ≡ some (line ++ 10 ∷ []))
      × WithoutNewlines str line
      × ((c : ℕ) → c ≢ 10 → occurrences c line ≡ occurrences c str)
      × (occurrences 10 line ≡ 0)
      × (length (line ++ 10 ∷ []) + 1 ≤ length str)
process_json_format_lem str two = (
  drop_newlines str,
  process_json_format-some str two,
  drop_newlines-WithoutNewlines str,
  λ c ne. ground (arith, drop-occurrences c str),
  drop-occurrences 10 str,
  omega (arith, length-append (drop_newlines str) (10 ∷ []), length-drop_newlines str),
)
