-- ===== src/Tests/Json.antt =====
-- A platform that serialises metastore rows without a name, as their number, and the rule of empty
-- texts, and a text for its lines.
use unity_catalog.Prelude.{
  ℕ, zero, suc, ℤ, pos, true, Option, none, some, [], ◌∷◌, length, ◌==◌, ◌≡◌, refl, ap, arith,
  if◌then◌else◌,
}
use unity_catalog.Prelude.Text.{Text}
use unity_catalog.Models.{Uuid, CasbinRule}
use unity_catalog.Store.Kind.{EntityKind}
use unity_catalog.Store.Platform.{Platform, RowOf}
use unity_catalog.Store.Log.Lines.{is_utf8, is_utf8_from, Owed}
use unity_catalog.Store.Log.Lines.Laws.{IsPrintable}
use unity_catalog.Store.Log.Commit.{Actor, CommitInfo, Line, JsonLines, IsWritten}
use unity_catalog.Tests.Instance.{unary, unary-injective, unary-no_nul}

abbrev pub nameless : Text → ℕ → Option ℕ
nameless [] n = some n
nameless _ n = none

abbrev pub no_rule : CasbinRule
no_rule = record { ptype = []; v0 = []; v1 = []; v2 = []; v3 = []; v4 = []; v5 = [] }

abbrev pub rule_number : (ptype v0 v1 v2 v3 v4 v5 : Text) → Option ℕ
rule_number [] [] [] [] [] [] [] = some 0
rule_number _ _ _ _ _ _ _ = none

abbrev pub rule_with : ℕ → Option CasbinRule
rule_with zero = some no_rule
rule_with (suc n) = none

abbrev pub number_of : (k : EntityKind) → RowOf k → Option ℕ
number_of EntityKind.metastore r = nameless r.name r.id
number_of EntityKind.casbin_rule r = rule_number r.ptype r.v0 r.v1 r.v2 r.v3 r.v4 r.v5
number_of _ _ = none

abbrev pub row_with : (k : EntityKind) → ℕ → Option (RowOf k)
row_with EntityKind.metastore n = some (record { id = n; name = [] })
row_with EntityKind.casbin_rule n = rule_with n
row_with _ _ = none

nameless_row :
    (id n : ℕ) (name : Text)
    → nameless name id ≡ some n
    → row_with EntityKind.metastore n ≡ some (record { id = id; name = name })
nameless_row id n [] h = let q : id ≡ n = ground arith in rw q refl
nameless_row id n (c ∷ name) h = cc

rule_of_number :
    (ptype v0 v1 v2 v3 v4 v5 : Text) (n : ℕ)
    → rule_number ptype v0 v1 v2 v3 v4 v5 ≡ some n
    → rule_with n
      ≡ some (record { ptype = ptype; v0 = v0; v1 = v1; v2 = v2; v3 = v3; v4 = v4; v5 = v5 })
rule_of_number [] [] [] [] [] [] [] zero h = refl
rule_of_number _ _ _ _ _ _ _ n h = absurd (ground arith)

pub row_with-number_of :
    (k : EntityKind) (r : RowOf k) (n : ℕ) → number_of k r ≡ some n → row_with k n ≡ some r
row_with-number_of EntityKind.metastore r n h = nameless_row r.id n r.name h
row_with-number_of EntityKind.casbin_rule r n h =
    rule_of_number r.ptype r.v0 r.v1 r.v2 r.v3 r.v4 r.v5 n h
row_with-number_of _ r n h = cc

abbrev pub numbers : Platform ℕ
numbers = record {
  to_value = number_of;
  from_value = row_with;
  from_value-to_value = row_with-number_of;
  uuid_text = unary;
  uuid_text_injective = unary-injective;
  uuid_text_no_nul = unary-no_nul;
}

abbrev pub info_text : ℕ → ℤ → Option Text → Option Actor → Option Text
info_text (suc zero) (pos n) none none = some (123 ∷ 98 ∷ unary n)
info_text (suc zero) (pos n) (some []) none = some (123 ∷ 99 ∷ unary n)
info_text _ _ _ _ = none

abbrev pub upsert_text : EntityKind → Uuid → ℕ → Option Text
upsert_text EntityKind.metastore zero n = some (123 ∷ unary n)
upsert_text EntityKind.casbin_rule zero zero = some (123 ∷ 100 ∷ [])
upsert_text _ _ _ = none

abbrev pub write_line : Line ℕ → Option Text
write_line (Line.commit_info info) = info_text info.format info.timestamp info.operation info.actor
write_line (Line.upsert kind id n) = upsert_text kind id n
write_line (Line.remove kind id) = none

abbrev pub info_at : ℕ → CommitInfo
info_at n = record { format = 1; timestamp = pos n; operation = none; actor = none }

abbrev pub named_info_at : ℕ → CommitInfo
named_info_at n = record { format = 1; timestamp = pos n; operation = some []; actor = none }

abbrev pub read_body : Text → Option (Line ℕ)
read_body [] = some (Line.upsert EntityKind.metastore 0 0)
read_body (c ∷ s) =
    if c == 98
    then some (Line.commit_info (info_at (length s)))
    else if c == 99
    then some (Line.commit_info (named_info_at (length s)))
    else if c == 100
    then some (Line.upsert EntityKind.casbin_rule 0 0)
    else some (Line.upsert EntityKind.metastore 0 (suc (length s)))

abbrev pub read_line : Text → Option (Line ℕ)
read_line [] = none
read_line (c ∷ s) = read_body s

pub length-unary : (n : ℕ) → length (unary n) ≡ n
length-unary zero = refl
length-unary (suc n) = ap suc (length-unary n)

read_info :
    (format : ℕ) (timestamp : ℤ) (operation : Option Text) (actor : Option Actor) (s : Text)
    → info_text format timestamp operation actor ≡ some s
    → read_line s
      ≡ some (
          Line.commit_info (record {
            format = format;
            timestamp = timestamp;
            operation = operation;
            actor = actor;
          }))
read_info (suc zero) (pos n) none none s h =
    let q : 123 ∷ 98 ∷ unary n ≡ s = ground arith in
    rw (← q) (ap (λ (m : ℕ). some (Line.commit_info (info_at m))) (length-unary n))
read_info (suc zero) (pos n) (some []) none s h =
    let q : 123 ∷ 99 ∷ unary n ≡ s = ground arith in
    rw (← q) (ap (λ (m : ℕ). some (Line.commit_info (named_info_at m))) (length-unary n))
read_info _ _ _ _ s h = ground arith

read_upsert :
    (kind : EntityKind) (id n : ℕ) (s : Text)
    → upsert_text kind id n ≡ some s
    → read_line s ≡ some (Line.upsert kind id n)
read_upsert EntityKind.metastore zero zero s h = ground arith
read_upsert EntityKind.metastore zero (suc n) s h =
    let q : 123 ∷ unary (suc n) ≡ s = ground arith in
    rw (← q) (ap (λ (m : ℕ). some (Line.upsert EntityKind.metastore 0 (suc m))) (length-unary n))
read_upsert EntityKind.casbin_rule zero zero s h =
    let q : 123 ∷ 100 ∷ [] ≡ s = ground arith in rw (← q) refl
read_upsert _ _ _ s h = ground arith

pub read_line-write_line :
    (line : Line ℕ) (s : Text)
    → IsWritten numbers line
    → write_line line ≡ some s
    → read_line s ≡ some line
read_line-write_line (Line.commit_info info) s w h =
    read_info info.format info.timestamp info.operation info.actor s h
read_line-write_line (Line.upsert kind id n) s w h = read_upsert kind id n s h
read_line-write_line (Line.remove kind id) s w h = cc

-- the four shapes that a written line has
write_line-shape :
    (P : Text → Type 0) (line : Line ℕ) (s : Text)
    → ((n : ℕ) → P (123 ∷ unary n))
    → ((n : ℕ) → P (123 ∷ 98 ∷ unary n))
    → ((n : ℕ) → P (123 ∷ 99 ∷ unary n))
    → P (123 ∷ 100 ∷ [])
    → write_line line ≡ some s
    → P s
write_line-shape P (Line.commit_info info) s f g g' r h =
    info_shape info.format info.timestamp info.operation info.actor h
  where
    info_shape :
        (format : ℕ) (timestamp : ℤ) (operation : Option Text) (actor : Option Actor)
        → info_text format timestamp operation actor ≡ some s
        → P s
    info_shape (suc zero) (pos n) none none h =
        let q : 123 ∷ 98 ∷ unary n ≡ s = ground arith in rw (← q) (g n)
    info_shape (suc zero) (pos n) (some []) none h =
        let q : 123 ∷ 99 ∷ unary n ≡ s = ground arith in rw (← q) (g' n)
    info_shape _ _ _ _ h = absurd (ground arith)
write_line-shape P (Line.upsert kind id n) s f g g' r h = upsert_shape kind id h
  where
    rule_shape : (m : ℕ) → upsert_text EntityKind.casbin_rule zero m ≡ some s → P s
    rule_shape zero h = let q : 123 ∷ 100 ∷ [] ≡ s = ground arith in rw (← q) r
    rule_shape (suc m) h = absurd (ground arith)

    upsert_shape : (kind : EntityKind) (id : ℕ) → upsert_text kind id n ≡ some s → P s
    upsert_shape EntityKind.metastore zero h =
        let q : 123 ∷ unary n ≡ s = ground arith in rw (← q) (f n)
    upsert_shape EntityKind.casbin_rule zero h = rule_shape n h
    upsert_shape _ _ h = absurd (ground arith)
write_line-shape P (Line.remove kind id) s f g g' r h = cc

unary-IsPrintable : (n : ℕ) → IsPrintable (unary n)
unary-IsPrintable zero = tt
unary-IsPrintable (suc n) = (omega arith, unary-IsPrintable n)

is_utf8-unary : (n : ℕ) → is_utf8_from Owed.start (unary n) ≡ true
unfolding is_utf8_from
is_utf8-unary zero = refl
is_utf8-unary (suc n) = is_utf8-unary n

pub write_line-brace :
    (line : Line ℕ) (s : Text) → write_line line ≡ some s → (rest : Text) × (s ≡ 123 ∷ rest)
write_line-brace line s h =
    write_line-shape (λ s. (rest : Text) × (s ≡ 123 ∷ rest)) line s (λ n. (unary n, refl))
      (λ n. (98 ∷ unary n, refl)) (λ n. (99 ∷ unary n, refl)) (100 ∷ [], refl) h

pub write_line-IsPrintable : (line : Line ℕ) (s : Text) → write_line line ≡ some s → IsPrintable s
write_line-IsPrintable line s h =
    write_line-shape IsPrintable line s (λ n. (omega arith, unary-IsPrintable n))
      (λ n. (omega arith, (omega arith, unary-IsPrintable n)))
      (λ n. (omega arith, (omega arith, unary-IsPrintable n))) (omega arith, (omega arith, tt)) h

pub write_line-utf8 : (line : Line ℕ) (s : Text) → write_line line ≡ some s → is_utf8 s ≡ true
unfolding is_utf8 is_utf8_from
write_line-utf8 line s h =
    write_line-shape (λ s. is_utf8 s ≡ true) line s is_utf8-unary is_utf8-unary is_utf8-unary refl h

abbrev pub json : JsonLines numbers
json = record {
  line_text = write_line;
  parse_line = read_line;
  parse_line-line_text = read_line-write_line;
  line_text-brace = write_line-brace;
  line_text-printable = write_line-IsPrintable;
  line_text-utf8 = write_line-utf8;
}
