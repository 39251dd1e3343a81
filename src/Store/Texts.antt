-- ===== src/Store/Texts.antt =====
-- A Go map with texts for keys, as an association list.
use iss_com_multipaxos.Prelude.{
  ℕ, ◌≡◌, refl, subst, ◌↔◌, true, Option, none, some, List, [], ◌∷◌, if◌then◌else◌, arith,
}
use iss_com_multipaxos.Commands.Text.{eq_text}

abbrev pub TextMap {ℓ} : Type ℓ → Type ℓ
TextMap V = List (List ℕ × V)

eq_text_refl : (s : List ℕ) → eq_text s s ≡ true
unfolding eq_text
eq_text_refl [] = refl
eq_text_refl (c ∷ s) = ground (arith, eq_text_refl s)

eq_text_sound : (s t : List ℕ) → eq_text s t ≡ true → s ≡ t
unfolding eq_text
eq_text_sound [] [] h = refl
eq_text_sound [] (d ∷ t) h = absurd (cc)
eq_text_sound (c ∷ s) [] h = absurd (cc)
eq_text_sound (c ∷ s) (d ∷ t) h = ground (arith, eq_text_sound s t)

pub eq_text_iff : (s t : List ℕ) → (eq_text s t ≡ true) ↔ (s ≡ t)
eq_text_iff s t = (eq_text_sound s t, λ e. subst (λ u. eq_text s u ≡ true) e (eq_text_refl s))

module _ {ℓ} {V : Type ℓ} where
  unfoldable pub lookup_text : List ℕ → TextMap V → Option V
  lookup_text k [] = none
  lookup_text k ((j, v) ∷ m) = if eq_text j k then some v else lookup_text k m

  unfoldable pub insert_text : List ℕ → V → TextMap V → TextMap V
  insert_text k v [] = (k, v) ∷ []
  insert_text k v ((j, w) ∷ m) = if eq_text j k then (k, v) ∷ m else (j, w) ∷ insert_text k v m

  unfoldable pub erase_text : List ℕ → TextMap V → TextMap V
  erase_text k [] = []
  erase_text k ((j, w) ∷ m) =
      let rest = erase_text k m in if eq_text j k then rest else (j, w) ∷ rest

  pub lookup-insert_text :
      (j k : List ℕ) (v : V) (m : TextMap V)
      → lookup_text j (insert_text k v m) ≡ (if eq_text k j then some v else lookup_text j m)
  unfolding lookup_text insert_text
  lookup-insert_text j k v [] = refl
  lookup-insert_text j k v ((i, w) ∷ m) =
      ground (arith, eq_text_iff k j, eq_text_iff i k, eq_text_iff i j, lookup-insert_text j k v m)
