-- ===== src/BoxServer/Transfer.antt =====
-- The transfer of a file: the parts that are written are the bytes that were sent.
use ntu_system_programming.Common.{
  length-append, take-append, drop-append, ℕ, zero, suc, ◌+◌, ◌-◌, ◌≤◌, ◌<◌, ◌≡◌, ◌≢◌, ◌*◌, refl,
  ap, ◌∙◌, arith, true, List, [], ◌∷◌, ◌++◌, leb, ◌==◌, length, take, drop, Bool-cases, inl, inr,
  length-drop,
}
use mathlib.Core.Path.{subst}
use ntu_system_programming.BoxServer.{Text, Action, write, recv_message}
use ntu_system_programming.BoxServer.Files.{receive_file, part_size}

-- The actions write these bytes to `file`, one part behind the other, and do nothing else.
pub data Writes (file : Text) : List Action → Text → Type 0 where
  done : Writes file [] []
  part :
      {out : List Action} {bytes : Text} (buf : Text)
      → Writes file out bytes
      → Writes file (write file buf ∷ out) (buf ++ bytes)

pub recv_full :
    (n : ℕ) (stream : Text)
    → 0 < n
    → n ≤ length stream
    → recv_message n stream ≡ (true, take n stream, drop n stream)
unfolding recv_message
recv_full zero stream some_byte there = absurd (omega arith)
recv_full (suc n) stream some_byte there =
    let fits : leb (suc n) (length stream) ≡ true = ground arith in rw fits refl

-- What was sent in front of other bytes is what comes.
pub recv_message-append :
    (n : ℕ) (xs ys : Text) → length xs ≡ n → 0 < n → recv_message n (xs ++ ys) ≡ (true, xs, ys)
recv_message-append n xs ys e some_byte =
    subst (λ k. recv_message k (xs ++ ys) ≡ (true, xs, ys)) e
      (recv_full (length xs) (xs ++ ys) (omega (arith, e, some_byte))
          (omega (arith, length-append xs ys))
        ∙ ap (λ t. (true, t, drop (length xs) (xs ++ ys))) (take-append xs ys)
        ∙ ap (λ t. (true, xs, t)) (drop-append xs ys))

drop_none : (b : ℕ) → drop {A = ℕ} b [] ≡ []
drop_none zero = refl
drop_none (suc b) = refl

take_none : (b : ℕ) → take {A = ℕ} b [] ≡ []
take_none zero = refl
take_none (suc b) = refl

part_size-bounds :
    (left : ℕ)
    → (left ≢ 0 → 0 < part_size left)
      × (part_size left ≤ left)
      × (left ≤ part_size left + (left - 4096))
unfolding part_size
part_size-bounds left = (ground arith, ground arith, ground arith)

drop-drop : (a b : ℕ) (t : Text) → drop b (drop a t) ≡ drop (a + b) t
drop-drop zero b t = let e : 0 + b ≡ b = omega arith in rw e refl
drop-drop (suc a) b [] = let e : suc a + b ≡ suc (a + b) = omega arith in rw (e, drop_none b) refl
drop-drop (suc a) b (x ∷ t) =
    let e : suc a + b ≡ suc (a + b) = omega arith in rw e (drop-drop a b t)

take-append-take : (a b : ℕ) (t : Text) → take a t ++ take b (drop a t) ≡ take (a + b) t
take-append-take zero b t = let e : 0 + b ≡ b = omega arith in rw e refl
take-append-take (suc a) b [] =
    let e : suc a + b ≡ suc (a + b) = omega arith in rw (e, take_none b) refl
take-append-take (suc a) b (x ∷ t) =
    let e : suc a + b ≡ suc (a + b) = omega arith in rw e (ap (λ l. x ∷ l) (take-append-take a b t))

-- Where the client has sent all of a file of `left` bytes, and the fuel is enough for parts of 4096,
-- the loop takes just these bytes from the connection and writes them, in order, to the file.
pub receive_file_lem :
    (fuel : ℕ) (file : Text) (left : ℕ) (stream : Text)
    → left ≤ fuel * 4096
    → left ≤ length stream
    → (out : List Action) × (receive_file fuel file left stream ≡ (drop left stream, out))
      × Writes file out (take left stream)
unfolding receive_file
receive_file_lem zero file left stream enough there =
    let e : left ≡ 0 = omega arith in rw e ([], refl, done)
receive_file_lem (suc fuel) file left stream enough there = elim (Bool-cases (left == 0)) [
  | inl empty ↦ let e : left ≡ 0 = ground arith in rw e ([], refl, done)
  | inr more ↦
      let r = part_size left in
      let (positive, within, large) = part_size-bounds left in
      let some_left : left ≢ 0 = ground arith in
      let (out, e, writes) =
        receive_file_lem fuel file (left - r) (drop r stream)
          (omega (arith, within, large, positive some_left, enough))
          (omega (arith, within, length-drop r stream)) in
      let whole : r + (left - r) ≡ left = omega (arith, within) in
      (
        write file (take r stream) ∷ out,
        rw
            (
              more,
              recv_full r stream (positive some_left) (omega (arith, within)),
              e,
              drop-drop r (left - r) stream,
              whole,
            )
            refl,
        subst (λ t. Writes file (write file (take r stream) ∷ out) t)
            (take-append-take r (left - r) stream ∙ ap (λ n. take n stream) whole)
            (part (take r stream) writes),
      )
]
