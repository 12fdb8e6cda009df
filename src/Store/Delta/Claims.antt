-- ===== src/Store/Delta/Claims.antt =====
-- A version of a table has one claimant.
use unity_catalog.Prelude.{
  ℕ, suc, ◌-◌, ℤ, pos, negsuc, Option, none, some, ◌∷◌, Result, ok, err, commit_version_conflict,
  is_some, ◌≡◌, refl, sym, ap, ◌∙◌, arith, inl, inr, if◌then◌else◌,
}
use unity_catalog.Prelude.Text.{Text, bytes}
use unity_catalog.Prelude.Decimal.{padded, padded_ℤ, parse_digits}
use unity_catalog.Prelude.Decimal.Read.{padded-injective, parse_digits-padded}
use unity_catalog.Models.{Uuid}
use unity_catalog.Store.Platform.{Platform}
use unity_catalog.Store.Keys.{partition_prefix, delta_commit_key}
use unity_catalog.Store.Keys.Distinct.{between_cancel}
use unity_catalog.Store.Log.Memory
use unity_catalog.Store.Log.Memory.{MemoryLog, PutResult}
use unity_catalog.Store.Protocol.Advance.{put_if_absent-cases, get-put_other, get-put_self}
use unity_catalog.Store.Delta.{
  DeltaLog, Documents, append, append_put, read, edited, put_edited, edit_found, mutate_commit,
}

signed : (w n m : ℕ) → padded w n ≡ b'-' ∷ padded (w - 1) (suc m) → ⊥
signed w n m h =
    let q : some n ≡ none =
      sym (parse_digits-padded (suc n) w n (omega arith))
      ∙ ap (parse_digits (suc n) 0) h
      ∙ (unfold parse_digits in refl) in
    ground arith

tail_eq : (c d : ℕ) (s t : Text) → c ∷ s ≡ d ∷ t → s ≡ t
tail_eq c d s t h = ground arith

padded_ℤ-injective : (w : ℕ) (a b : ℤ) → padded_ℤ w a ≡ padded_ℤ w b → a ≡ b
unfolding padded_ℤ
padded_ℤ-injective w (pos n) (pos m) h = ap pos (padded-injective w n m h)
padded_ℤ-injective w (pos n) (negsuc m) h = absurd (signed w n m h)
padded_ℤ-injective w (negsuc n) (pos m) h = absurd (signed w m n (sym h))
padded_ℤ-injective w (negsuc n) (negsuc m) h =
    let e = padded-injective (w - 1) (suc n) (suc m) (tail_eq b'-' b'-' _ _ h) in
    ap negsuc (omega (arith, e))

module _ {Value : Type 0} (platform : Platform Value) where
  -- Commits of one table at different versions have different keys.
  pub delta_commit_key-injective :
      (table_id : Uuid) (a b : ℤ)
      → delta_commit_key platform table_id a ≡ delta_commit_key platform table_id b
      → a ≡ b
  unfolding delta_commit_key
  delta_commit_key-injective table_id a b h = padded_ℤ-injective 20 a b (
      between_cancel (partition_prefix platform table_id) (bytes ".json") (padded_ℤ 20 a)
        (padded_ℤ 20 b) h)

  -- An append succeeds exactly when nobody has claimed the version, and conflicts otherwise. Afterwards the
  -- version holds the body of whoever came first, and every other version of the table holds what it held.
  pub append-claims :
      (table_id : Uuid) (version other : ℤ) (body : Text) (d : DeltaLog)
      → (other ≡ version → ⊥)
      → ((append platform table_id version body d).1 ≡ (
          if is_some (read platform table_id version d)
          then err commit_version_conflict
          else ok tt))
        × (read platform table_id version (append platform table_id version body d).0 ≡ (
            if is_some (read platform table_id version d)
            then read platform table_id version d
            else some body))
        × (read platform table_id other (append platform table_id version body d).0
            ≡ read platform table_id other d)
  unfolding append append_put read
  append-claims table_id version other body d apart =
      elim (put_if_absent-cases (delta_commit_key platform table_id version) body d.log) [
        | inl (there, found, e) ↦ rw (e, found) (refl, refl, refl)
        | inr (absent, e) ↦
            rw (e, absent)
              (
                refl,
                get-put_self (delta_commit_key platform table_id version) body d.log,
                get-put_other (delta_commit_key platform table_id version) body
                    (delta_commit_key platform table_id other) d.log
                    (λ q. apart (sym (delta_commit_key-injective table_id version other q))),
              )
      ]

  -- Editing a commit in place, whether it succeeds or not, claims no version and gives none up, and leaves
  -- the other versions of the table as they were.
  pub mutate_commit-claims :
      (docs : Documents) (table_id : Uuid) (version other : ℤ) (edit : docs.Doc → docs.Doc)
      (d : DeltaLog)
      → (other ≡ version → ⊥)
      → (is_some
            (read platform table_id version (mutate_commit platform docs table_id version edit d).0)
          ≡ is_some (read platform table_id version d))
        × (read platform table_id other (mutate_commit platform docs table_id version edit d).0
            ≡ read platform table_id other d)
  unfolding mutate_commit read
  mutate_commit-claims docs table_id version other edit d apart =
      found_claims (Memory.get (delta_commit_key platform table_id version) d.log) refl
    where
      key : Text
      key = delta_commit_key platform table_id version

      put_claims :
          (made : Result Text) (body : Text)
          → Memory.get key d.log ≡ some body
          → (is_some (Memory.get key (put_edited platform docs key made d).0.log)
              ≡ is_some (Memory.get key d.log))
            × (Memory.get
                  (delta_commit_key platform table_id other)
                  (put_edited platform docs key made d).0.log
                ≡ Memory.get (delta_commit_key platform table_id other) d.log)
      put_claims (err code) body there = unfold put_edited in (refl, refl)
      put_claims (ok made) body there =
          unfold put_edited in
          (
            ap is_some (get-put_self key made d.log) ∙ sym (ap is_some there),
            get-put_other key made (delta_commit_key platform table_id other) d.log
                (λ q. apart (sym (delta_commit_key-injective table_id version other q))),
          )

      found_claims :
          (found : Option Text)
          → Memory.get key d.log ≡ found
          → (is_some (Memory.get key (edit_found platform docs key edit found d).0.log)
              ≡ is_some (Memory.get key d.log))
            × (Memory.get
                  (delta_commit_key platform table_id other)
                  (edit_found platform docs key edit found d).0.log
                ≡ Memory.get (delta_commit_key platform table_id other) d.log)
      found_claims none there = unfold edit_found in (refl, refl)
      found_claims (some body) there =
          unfold edit_found in put_claims (edited platform docs edit body) body there
