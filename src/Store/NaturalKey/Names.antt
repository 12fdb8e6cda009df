-- ===== src/Store/NaturalKey/Names.antt =====
-- Children: the key of a child determines its parent and its name.
use unity_catalog.Prelude.{ℕ, [], ◌∷◌, ◌++◌, All, ◌≡◌, ◌≢◌, refl, arith}
use unity_catalog.Prelude.Text.{Text}
use unity_catalog.Store.Platform.{Platform}
use unity_catalog.Store.NaturalKey.{child_key, nul}

-- The first NUL ends the text of the parent.
before_nul :
    (s t a b : Text)
    → All (λ c. c ≢ 0) s
    → All (λ c. c ≢ 0) t
    → s ++ (nul ∷ a) ≡ t ++ (nul ∷ b)
    → (s ≡ t) × (a ≡ b)
before_nul [] [] a b h k e = (refl, ground arith)
before_nul [] (y ∷ t) a b h k e = ground arith
before_nul (x ∷ s) [] a b h k e = ground arith
before_nul (x ∷ s) (y ∷ t) a b h k e = ground (arith, before_nul s t a b h.1 k.1)

-- Two children with the same key have the same parent and the same name, whatever bytes the names
-- hold.
pub child_key-injective :
    {Value : Type 0} (platform : Platform Value) (p q : ℕ) (a b : Text)
    → child_key platform p a ≡ child_key platform q b
    → (p ≡ q) × (a ≡ b)
unfolding child_key
child_key-injective platform p q a b e =
    let (s, t) =
      before_nul (platform.uuid_text p) (platform.uuid_text q) a b (platform.uuid_text_no_nul p)
        (platform.uuid_text_no_nul q) e in
    (platform.uuid_text_injective p q s, t)
