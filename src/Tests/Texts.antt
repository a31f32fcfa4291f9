-- ===== src/Tests/Texts.antt =====
-- The toy texts of the samples are read back.
use Prim.Native.Char.{code}
use Prim.Native.String.{◌++◌}
use Prim.Native.String as Strings
use Prim.Native.String.append
use text.Mathlib.TextLemmas.{append_assoc, append_cancel_left}
use pactra.Base.{ℕ, zero, suc, String, ◌≡◌, ◌≢◌, refl, sym, ap, ◌∙◌}
use pactra.Kernel.Canonical.{Readable}
use pactra.Tests.Samples.{unary, crypto}

first : String → ℕ
first Strings.[] = 0
first (Strings.◌∷◌ x xs) = code x

first_bracket : (r : String) → first ("]" ++ r) ≡ 93
unfolding first
first_bracket r = ap first (append.cons "]" "" r)

first_quote : (r : String) → first ("\"" ++ r) ≡ 34
unfolding first
first_quote r = ap first (append.cons "\"" "" r)

first_digit : (r : String) → first ("1" ++ r) ≡ 49
unfolding first
first_digit r = ap first (append.cons "1" "" r)

-- A number in unary is read up to a text that does not begin like it.
module _ (e : String) (apart : (r : String) → first (e ++ r) ≢ 49) where
  unary_read :
      (k l : ℕ) (r r' : String) → unary k ++ (e ++ r) ≡ unary l ++ (e ++ r') → (k ≡ l) × (r ≡ r')
  unary_read zero zero r r' h = (refl, append_cancel_left e _ _ (append_cancel_left "" _ _ h))
  unary_read zero (suc l) r r' h = absurd (
      apart r (
        ap first (sym (append.nil (e ++ r)) ∙ h ∙ append_assoc "1" (unary l) (e ++ r'))
        ∙ first_digit (unary l ++ (e ++ r'))))
  unary_read (suc k) zero r r' h = absurd (
      apart r' (
        ap first (sym (append.nil (e ++ r')) ∙ sym h ∙ append_assoc "1" (unary k) (e ++ r))
        ∙ first_digit (unary k ++ (e ++ r))))
  unary_read (suc k) (suc l) r r' h =
      let (same, rest) = unary_read k l r r' (
        append_cancel_left "1" _ _
          (sym (append_assoc "1" (unary k) (e ++ r)) ∙ h ∙ append_assoc "1" (unary l) (e ++ r'))) in
      (ap suc same, rest)

quoted :
    (x : ℕ) (r : String)
    → ("\"" ++ (unary x ++ "\"")) ++ ("]" ++ r) ≡ "\"" ++ (unary x ++ ("\"" ++ ("]" ++ r)))
quoted x r = simp append_assoc

pub crypto-Readable : Readable crypto
crypto-Readable = record {
  numbers = λ k l r r' h. unary_read "]" (λ s e. cc (first_bracket s, e)) k l r r' h;
  texts = λ x y r r' h.
      let (same, rest) =
        unary_read "\"" (λ s e. cc (first_quote s, e)) x y ("]" ++ r) ("]" ++ r')
          (append_cancel_left "\"" _ _ (sym (quoted x r) ∙ h ∙ quoted y r')) in
      (same, append_cancel_left "]" _ _ rest);
  instants = λ m m' h. h;
}
