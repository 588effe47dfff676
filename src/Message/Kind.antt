-- ===== src/Message/Kind.antt =====
-- The message type of a device: the sum of the characters of its name. The server computes it in
-- `handl_thread`, and each page from its cookie; `char` is signed on the server's machine.
use cloud_system.Base.{
  ℕ, ◌-◌, ◌≡◌, refl, List, [], ◌∷◌, ltb, if◌then◌else◌, codes, ℤ, pos, negsuc, ◌+ℤ◌, double, ◌++◌,
  sym, arith, ◌∙◌, ap,
}

-- The value of the `char` with the given bits.
unfoldable pub signed_char : ℕ → ℤ
signed_char c = if ltb c 128 then pos c else negsuc (255 - c)

-- `type += name[i]` for each character, from `type`.
unfoldable pub add_chars : ℤ → List ℕ → ℤ
add_chars type [] = type
add_chars type (c ∷ cs) = add_chars (type +ℤ signed_char c) cs

unfoldable pub type_of : List ℕ → ℤ
type_of name = add_chars (pos 0) name

-- The types of the only name that the server lets in.
pub type_of_admin : type_of (codes "admin") ≡ pos 521
unfolding type_of add_chars signed_char ◌+ℤ◌
type_of_admin = refl

pub double_admin : double (pos 521) ≡ pos 1042
unfolding double ◌+ℤ◌
double_admin = refl

add_ℤ_assoc : (a b c : ℤ) → (a +ℤ b) +ℤ c ≡ a +ℤ (b +ℤ c)
unfolding ◌+ℤ◌
add_ℤ_assoc (pos a) (pos b) (pos c) = ground arith
add_ℤ_assoc (pos a) (pos b) (negsuc c) = ground arith
add_ℤ_assoc (pos a) (negsuc b) (pos c) = ground arith
add_ℤ_assoc (pos a) (negsuc b) (negsuc c) = ground arith
add_ℤ_assoc (negsuc a) (pos b) (pos c) = ground arith
add_ℤ_assoc (negsuc a) (pos b) (negsuc c) = ground arith
add_ℤ_assoc (negsuc a) (negsuc b) (pos c) = ground arith
add_ℤ_assoc (negsuc a) (negsuc b) (negsuc c) = ground arith

add_ℤ-zero : (a : ℤ) → a +ℤ pos 0 ≡ a
unfolding ◌+ℤ◌
add_ℤ-zero (pos a) = ground arith
add_ℤ-zero (negsuc a) = ground arith

zero-add_ℤ : (a : ℤ) → pos 0 +ℤ a ≡ a
unfolding ◌+ℤ◌
zero-add_ℤ (pos a) = ground arith
zero-add_ℤ (negsuc a) = ground arith

-- The characters behind each other count as their sums do.
add_chars-type_of : (t : ℤ) (name : List ℕ) → add_chars t name ≡ t +ℤ type_of name
unfolding add_chars type_of
add_chars-type_of t [] = sym (add_ℤ-zero t)
add_chars-type_of t (c ∷ cs) =
    add_chars-type_of (t +ℤ signed_char c) cs
    ∙ add_ℤ_assoc t (signed_char c) (type_of cs)
    ∙ ap (λ s. t +ℤ s)
        (sym (
          add_chars-type_of (pos 0 +ℤ signed_char c) cs
          ∙ ap (λ s. s +ℤ type_of cs) (zero-add_ℤ (signed_char c))))

add_chars-append : (t : ℤ) (xs ys : List ℕ) → add_chars t (xs ++ ys) ≡ add_chars (add_chars t xs) ys
unfolding add_chars
add_chars-append t [] ys = refl
add_chars-append t (x ∷ xs) ys = add_chars-append (t +ℤ signed_char x) xs ys

-- The type of two names behind each other is the sum of their types.
pub type_of-append : (xs ys : List ℕ) → type_of (xs ++ ys) ≡ type_of xs +ℤ type_of ys
unfolding type_of
type_of-append xs ys = add_chars-append (pos 0) xs ys ∙ add_chars-type_of (type_of xs) ys
