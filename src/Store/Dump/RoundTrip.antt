-- ===== src/Store/Dump/RoundTrip.antt =====
-- A checkpoint that is written for a valid snapshot is loaded as a snapshot that answers alike.
use unity_catalog.Prelude.{
  ℕ, suc, true, false, some, List, [], ◌∷◌, All, length, ok, internal, >>=-eq-ok, eq_of_ok_or, ◌≡◌,
  refl, sym, ap, ◌∙◌, subst, arith, Option-cases, inl, inr,
}
use unity_catalog.Prelude.Text.{Text}
use unity_catalog.Prelude.Order.{bytes_ord, pair_ord}
use unity_catalog.Prelude.HashMap
use unity_catalog.Prelude.HashMap.{HashMap}
use unity_catalog.Prelude.BTreeMap
use unity_catalog.Models.{Uuid}
use unity_catalog.Store.Kind.{EntityKind, kind_ord}
use unity_catalog.Store.Platform.{Platform, RowOf}
use unity_catalog.Store.Row.{Row, kind, row_of, to_body, from_body, from_body-to_value}
use unity_catalog.Store.Snapshot.{Snapshot, empty, get, id_by_natural_key, place, apply}
use unity_catalog.Store.Snapshot.Coherent.{IsCoherent, empty-IsCoherent, place-IsCoherent}
use unity_catalog.Store.Snapshot.Same.{IsSame}
use unity_catalog.Store.Valid.{IsValid}
use unity_catalog.Store.Log.Lines.{lines, lines_from, is_blank, is_utf8, is_utf8_from}
use unity_catalog.Store.Log.Checkpoint.{line_count}
use unity_catalog.Store.Log.Commit.{Line, JsonLines}
use unity_catalog.Store.Log.Commit.Written.{with_line-lines}
use unity_catalog.Store.Dump.{
  Resident, residents, encode_rows, encode_checkpoint, load_line, load_raw, load_lines,
  decode_checkpoint,
}
use unity_catalog.Store.Dump.Load.{IsPart, Holds, Finds, place_all, place_all-loads}
use unity_catalog.Store.Dump.Residents.{residents-Holds, Has-residents, All_at}

no_row : (k : EntityKind) (id : Uuid) (r : Row) → get empty k id ≡ some r → ⊥
unfolding get
no_row k id r h = ground (arith, HashMap.get-nil {V = HashMap Uuid Row} k)

no_key : (k : EntityKind) (key : Text) (id : Uuid) → id_by_natural_key empty k key ≡ some id → ⊥
unfolding id_by_natural_key
no_key k key id h = ground (arith, BTreeMap.get-nil {K = EntityKind × Text} {V = Uuid} (k, key))

IsPart-empty : (s : Snapshot) → IsPart empty s
IsPart-empty s = record {
  rows = λ k id r h. absurd (no_row k id r h);
  keys = λ k key id h. absurd (no_key k key id h);
}

module _ {Value : Type 0} (platform : Platform Value) where
  -- A body that a row is written as was made from the row's struct.
  to_body-row :
      (row : Row) (body : Value)
      → to_body platform row ≡ ok body
      → (r : RowOf (kind row)) × (row_of (kind row) r ≡ row)
        × (platform.to_value (kind row) r ≡ some body)
  unfolding to_body kind row_of
  to_body-row (Row.metastore r) body h = (r, refl, eq_of_ok_or internal _ body h)
  to_body-row (Row.catalog r) body h = (r, refl, eq_of_ok_or internal _ body h)
  to_body-row (Row.schema r) body h = (r, refl, eq_of_ok_or internal _ body h)
  to_body-row (Row.table r) body h = (r, refl, eq_of_ok_or internal _ body h)
  to_body-row (Row.column r) body h = (r, refl, eq_of_ok_or internal _ body h)
  to_body-row (Row.volume r) body h = (r, refl, eq_of_ok_or internal _ body h)
  to_body-row (Row.function r) body h = (r, refl, eq_of_ok_or internal _ body h)
  to_body-row (Row.function_parameter r) body h = (r, refl, eq_of_ok_or internal _ body h)
  to_body-row (Row.registered_model r) body h = (r, refl, eq_of_ok_or internal _ body h)
  to_body-row (Row.model_version r) body h = (r, refl, eq_of_ok_or internal _ body h)
  to_body-row (Row.staging_table r) body h = (r, refl, eq_of_ok_or internal _ body h)
  to_body-row (Row.user r) body h = (r, refl, eq_of_ok_or internal _ body h)
  to_body-row (Row.credential r) body h = (r, refl, eq_of_ok_or internal _ body h)
  to_body-row (Row.external_location r) body h = (r, refl, eq_of_ok_or internal _ body h)
  to_body-row (Row.property r) body h = (r, refl, eq_of_ok_or internal _ body h)
  to_body-row (Row.casbin_rule r) body h = (r, refl, eq_of_ok_or internal _ body h)

  place_all-IsCoherent :
      (s : Snapshot)
      → IsCoherent platform s
      → (es : List Resident) (u : Snapshot) → All (Holds s) es
      → IsCoherent platform u
      → IsCoherent platform (place_all platform u es)
  unfolding place_all
  place_all-IsCoherent s c [] u h cu = cu
  place_all-IsCoherent s c (e ∷ es) u h cu =
      place_all-IsCoherent s c es (place platform u e.0 e.1.0 e.1.1) h.1
        (place-IsCoherent platform u e.0 e.1.0 e.1.1 (c.kinded e.0 e.1.0 e.1.1 h.0) cu)

module _ {Value : Type 0} {platform : Platform Value} (json : JsonLines platform) where
  load_raw-upsert :
      (k : EntityKind) (id : Uuid) (body : Value) (row : Row) (u : Snapshot) (raw : Text)
      → is_blank raw ≡ false
      → json.parse_line raw ≡ some (Line.upsert k id body)
      → from_body platform k body ≡ ok row
      → load_raw json u raw ≡ ok (place platform u k id row)
  unfolding load_raw load_line apply
  load_raw-upsert k id body row u raw blank parsed read = rw blank (rw parsed (rw read refl))

  encode_rows-loads :
      (es : List Resident) (out : Text) (u : Snapshot)
      → All (λ e. kind e.1.1 ≡ e.0) es
      → encode_rows json es ≡ ok out
      → (is_utf8 out ≡ true)
        × (load_lines json u (lines out) ≡ ok (place_all platform u es))
        × (line_count out ≡ length es)
  unfolding encode_rows load_lines place_all
  encode_rows-loads [] out u a h =
      let q : [] ≡ out = ground arith in
      (
        rw (← q) (unfold is_utf8 is_utf8_from in refl),
        rw (← q) (unfold lines lines_from in refl),
        rw (← q) (unfold line_count in refl),
      )
  encode_rows-loads ((k, (id, row)) ∷ es) out u a h =
      let (rest, r, h1) = >>=-eq-ok (encode_rows json es) _ h in
      let (body, b, h2) = >>=-eq-ok (to_body platform row) _ h1 in
      let (struct, same_row, w) = to_body-row platform row body b in
      let next = place platform u k id row in
      let (v, ih, n) = encode_rows-loads es rest next a.1 r in
      let (s, v', l, blank, parsed, m) =
        with_line-lines json (Line.upsert k id body) rest out (kind row, struct, w) v h2 in
      let read : from_body platform k body ≡ ok row =
        subst (λ (x : EntityKind). from_body platform x body ≡ ok row) a.0
          (from_body-to_value platform (kind row) struct body w ∙ ap ok same_row) in
      let raw = load_raw-upsert k id body row u s blank parsed read in
      (v', rw l (rw raw ih), m ∙ ap suc n)

  -- The checkpoint of a snapshot that satisfies the invariant is loaded, and what is loaded answers
  -- every lookup as the snapshot does and satisfies the invariant; the number of lines that is
  -- recorded is the number that the body has.
  pub decode_checkpoint-encode_checkpoint :
      (s : Snapshot) (body : Text) (size : ℕ)
      → IsValid platform s
      → encode_checkpoint json s ≡ ok (body, size)
      → (line_count body ≡ size)
        × ((t : Snapshot) × (decode_checkpoint json body ≡ ok t) × IsSame s t × IsValid platform t)
  unfolding encode_checkpoint decode_checkpoint
  decode_checkpoint-encode_checkpoint s body size v h =
      let (text, r, h1) = >>=-eq-ok (encode_rows json (residents s)) _ h in
      let q : text ≡ body = ground arith in
      let z : length (residents s) ≡ size = ground arith in
      let holds = residents-Holds s in
      let (u, load, n) = encode_rows-loads (residents s) text empty (kinds (residents s) holds) r in
      let t = place_all platform empty (residents s) in
      let (part, _, has, finds) =
        place_all-loads platform s v.indexed (residents s) empty holds (IsPart-empty s) in
      let rows_eq : (k : EntityKind) (id : Uuid) → get s k id ≡ get t k id = λ k id.
        elim (Option-cases (get s k id)) [
          | inr (row, g) ↦
              g
              ∙ sym (All_at (Holds t) (k, (id, row)) (residents s) has (Has-residents s k id row g))
          | inl g ↦ elim (Option-cases (get t k id)) [
            | inl g' ↦ g ∙ sym g'
            | inr (row, g') ↦ absurd (ground (arith, part.rows k id row g'))
          ]
        ] in
      let keys_eq : (k : EntityKind) (key : Text)
          → id_by_natural_key s k key ≡ id_by_natural_key t k key =
        λ k key. elim (Option-cases (id_by_natural_key s k key)) [
          | inr (id, g) ↦
              let (row, there, own) = v.coherent.sound k key id g in
              g
              ∙ sym (
                  All_at (Finds platform t) (k, (id, row)) (residents s) finds
                    (Has-residents s k id row there) key own)
          | inl g ↦ elim (Option-cases (id_by_natural_key t k key)) [
            | inl g' ↦ g ∙ sym g'
            | inr (id, g') ↦ absurd (ground (arith, part.keys k key id g'))
          ]
        ] in
      (
        ap line_count (sym q) ∙ n ∙ z,
        (
          t,
          rw (← q) (rw u load),
          record { rows = rows_eq; keys = keys_eq },
          record {
            coherent =
                place_all-IsCoherent platform s v.coherent (residents s) empty holds
                  (empty-IsCoherent platform);
            indexed = λ k id row key g m.
                sym (keys_eq k key) ∙ v.indexed k id row key (rows_eq k id ∙ g) m;
            identified = λ k id row own g m. v.identified k id row own (rows_eq k id ∙ g) m;
          },
        ),
      )
    where
      kinds : (es : List Resident) → All (Holds s) es → All (λ e. kind e.1.1 ≡ e.0) es
      kinds [] a = tt
      kinds (e ∷ es) a = (v.coherent.kinded e.0 e.1.0 e.1.1 a.0, kinds es a.1)
