-- ===== src/Tests/Protocol.antt =====
-- A store of two processes: one commits while the other does.
use unity_catalog.Prelude.{
  ℕ, suc, ◌≤◌, ℤ, pos, none, some, List, [], ◌∷◌, length, Result, ok, ◌≡◌, refl, arith, inl, inr,
}
use unity_catalog.Prelude.Text.{Text, bytes}
use unity_catalog.Prelude.HashMap
use unity_catalog.Prelude.BTreeMap
use unity_catalog.Prelude.Order.{bytes_ord, pair_ord}
use unity_catalog.Models.{Uuid}
use unity_catalog.Store.Kind.{EntityKind, kind_ord}
use unity_catalog.Store.Row.{Row, kind, row_id, to_body, from_body}
use unity_catalog.Store.NaturalKey.{natural_key_for, rule_key, join_nul}
use unity_catalog.Store.Action.{Action}
use unity_catalog.Store.Snapshot.{
  Snapshot, empty, get, get_by_natural_key, id_by_natural_key, place, apply,
}
use unity_catalog.Store.Snapshot.Same.{IsSame}
use unity_catalog.Store.Snapshot.Unique.{IsFree}
use unity_catalog.Store.Valid.{IsValid, empty-IsValid, place-IsValid}
use unity_catalog.Store.Log.Checkpoint.{line_count, resolve_checkpoint}
use unity_catalog.Store.Log.Memory
use unity_catalog.Store.Log.Replay.{
  Entry, read_object, read_commit, wanted, read_commits, check_gapless, read_commits_after,
}
use unity_catalog.Store.Log.Listing.{list_all_after, list_all_in_range, pages}
use unity_catalog.Store.Log.Lines.{is_utf8, is_utf8_from, lines, lines_from, is_blank}
use unity_catalog.Store.Keys.{commit_key, version_from_key}
use unity_catalog.Prelude.Decimal
use unity_catalog.Prelude.Decimal.{padded}
use unity_catalog.Prelude.Sort.{sort}
use unity_catalog.Store.Log.Commit.{
  encode_commit, encode_actions, with_line, decode_commit, decode_lines, decode_raw, decode_line,
}
use unity_catalog.Store.Dump.{residents, encode_rows, encode_checkpoint, decode_checkpoint}
use unity_catalog.Store.Dump.RoundTrip.{decode_checkpoint-encode_checkpoint}
use unity_catalog.Store.Protocol.{World, Outcome, PointerText, object_log, catch_up, commit, info}
use unity_catalog.Store.Protocol.History.{History, IsPast, IsPast-trans}
use unity_catalog.Store.Protocol.Invariant.{IsAt, IsLog, IsWorld}
use unity_catalog.Store.Protocol.CatchUp.{catch_up-IsWorld, read_commits_after-ends}
use unity_catalog.Store.Protocol.Arms.{IsRespectful, IsAnswer}
use unity_catalog.Store.Protocol.Serial.{commit-IsSerial}
use unity_catalog.Store.Protocol.Lands.{empty-IsLog, empty-IsAt, commit-lands}
use unity_catalog.Repos.Build.{Build, upsert_one, upsert_row}
use unity_catalog.Repos.Casbin
use unity_catalog.Repos.Requests.{Request, closure}
use unity_catalog.Repos.Sound.Requests.{closure-IsSound}
use unity_catalog.Repos.Sound.Unique.{commit_unique}
use unity_catalog.Tests.Json.{numbers, json, no_rule}

abbrev pointers : PointerText
pointers = record { parse_pointer = λ text. none; pointer_text = λ pointer. some (bytes "{}") }

abbrev fresh : World
fresh = record { log = []; state = empty }

abbrev clock : ℕ → ℤ
clock n = pos n

abbrev init : Build ℕ Unit
init = closure numbers (Request.init_metastore 0 [])

abbrev insert : Request
insert = Request.insert_rule 0 no_rule

-- another process, with nothing read yet, commits the same whenever this one waits
abbrev rival : ℕ → World → World
rival n w =
    record (commit json pointers clock [] none (λ n v. v) (closure numbers insert)
      (record { log = w.log; state = empty })).0 { state = w.state }

IsPast-nil : (h : History ℕ) → IsPast [] h
IsPast-nil [] = refl
IsPast-nil (acts ∷ h) = inr (IsPast-nil h)

nobody : IsRespectful {platform = numbers} json pointers (λ n v. v)
nobody n w h i = (h, IsPast-trans h h h (past_self h) (past_self h), i)
  where
    past_self : (h : History ℕ) → IsPast h h
    past_self [] = refl
    past_self (acts ∷ h) = inl refl

rival-IsRespectful : IsRespectful {platform = numbers} json pointers rival
rival-IsRespectful n w h (l, (past, p, at)) =
    let (h', q, (l', _), _) =
      commit-IsSerial json pointers clock [] none (λ n v. v) (closure numbers insert)
        (closure-IsSound numbers json pointers insert) nobody
        (record { log = w.log; state = empty }) h (l, ([], IsPast-nil h, empty-IsAt json)) in
    (h', q, (l', (past, IsPast-trans past h h' p q, at)))

fresh-IsWorld : IsWorld json fresh []
fresh-IsWorld = (empty-IsLog json, ([], refl, empty-IsAt json))

abbrev contended : World × Outcome
contended = commit json pointers clock [] none rival (closure numbers insert) fresh

commit-IsSerial_example :
    IsAnswer json pointers
      (closure numbers insert)
      (closure-IsSound numbers json pointers insert)
      []
      contended.0
      contended.1
commit-IsSerial_example =
    commit-IsSerial json pointers clock [] none rival (closure numbers insert)
      (closure-IsSound numbers json pointers insert) rival-IsRespectful fresh [] fresh-IsWorld

-- what the snapshot of this process holds afterwards
abbrev rule_row : Row
rule_row = Row.casbin_rule no_rule

inserted : get contended.0.state EntityKind.casbin_rule 0 ≡ some rule_row
unfolding commit get HashMap.get HashMap.insert closure Casbin.insert get_by_natural_key
    BTreeMap.get BTreeMap.insert upsert_one upsert_row encode_commit encode_actions with_line
    Memory.put_if_absent Memory.get Memory.list_after Memory.len apply place from_body
    natural_key_for rule_key join_nul commit_key padded resolve_checkpoint list_all_after
    list_all_in_range pages read_commits_after read_commits read_commit read_object wanted
    check_gapless version_from_key Decimal.parse_u64 Decimal.parse_digits Decimal.parse_nonempty
    decode_commit decode_lines decode_raw decode_line is_utf8 is_utf8_from lines lines_from is_blank
inserted = refl

abbrev first_id : ℕ
first_id = 0

commit_unique_example : first_id ≡ 0
commit_unique_example =
    commit_unique json pointers clock [] none rival insert fresh [] EntityKind.casbin_rule first_id
      0 rule_row rule_row (rule_key no_rule) rival-IsRespectful fresh-IsWorld inserted inserted
      key_of_rule key_of_rule
  where
    key_of_rule : natural_key_for numbers rule_row ≡ some (rule_key no_rule)
    key_of_rule = unfold natural_key_for in refl

abbrev insertion : Action ℕ
insertion = Action.upsert EntityKind.casbin_rule 0 0

abbrev commit_body : Text
commit_body = 123 ∷ 99 ∷ 97 ∷ 97 ∷ 97 ∷ 97 ∷ 97 ∷ 97 ∷ 97 ∷ 10 ∷ 123 ∷ 100 ∷ 10 ∷ []

built : closure numbers insert empty ≡ ok (insertion ∷ [], tt)
unfolding closure Casbin.insert get_by_natural_key BTreeMap.get upsert_one upsert_row
built = refl

encoded :
    encode_commit json
      (info json pointers clock [] none (λ n v. v) (closure numbers insert) 7)
      (insertion ∷ [])
    ≡ ok commit_body
unfolding encode_commit info encode_actions with_line
encoded = refl

abbrev alone : World × Outcome
alone = commit json pointers clock [] none (λ n v. v) (closure numbers insert) fresh

commit-lands_example :
    (alone.1 ≡ ok tt)
    × IsLog json alone.0.log ((insertion ∷ []) ∷ [])
    × IsAt numbers alone.0.state ((insertion ∷ []) ∷ [])
commit-lands_example =
    commit-lands json pointers clock [] none (closure numbers insert)
      (closure-IsSound numbers json pointers insert) fresh [] insertion [] tt commit_body
      (empty-IsLog json) (empty-IsAt json) (omega arith) built encoded

-- a process that starts on the log that this one left
abbrev late : World
late = record { log = alone.0.log; state = empty }

late_log : IsLog json alone.0.log ((insertion ∷ []) ∷ [])
late_log =
    (commit-lands json pointers clock [] none (closure numbers insert)
      (closure-IsSound numbers json pointers insert) fresh [] insertion [] tt commit_body
      (empty-IsLog json) (empty-IsAt json) (omega arith) built encoded).1

catch_up-IsWorld_example :
    (g : History ℕ) × IsPast g ((insertion ∷ []) ∷ [])
    × IsAt numbers (catch_up json pointers late).0.state g
    × ((catch_up json pointers late).0.log ≡ alone.0.log)
    × (0 ≤ length g)
catch_up-IsWorld_example =
    catch_up-IsWorld json pointers late ((insertion ∷ []) ∷ []) [] late_log (inr refl)
      (empty-IsAt json)

read_commits_after-ends_example :
    (read : Result (List (Entry ℕ))) × (read_commits_after json
        (object_log late.log)
        (suc (Memory.len late.log))
        0
      ≡ some read)
read_commits_after-ends_example = read_commits_after-ends json late.log 0 late_log.sorted

abbrev one_rule : Snapshot
one_rule = place numbers empty EntityKind.casbin_rule 0 rule_row

one_rule-IsValid : IsValid numbers one_rule
unfolding kind row_id
one_rule-IsValid =
    place-IsValid numbers empty (empty-IsValid numbers) EntityKind.casbin_rule 0 rule_row refl
      nothing_taken (λ own e. absurd cc)
  where
    nothing_taken : IsFree numbers empty EntityKind.casbin_rule 0 rule_row
    nothing_taken key id n e = absurd (
        unfold id_by_natural_key in
        ground (
          arith,
          BTreeMap.get-nil {K = EntityKind × Text} {V = Uuid} (EntityKind.casbin_rule, key),
        ))

abbrev dump : Text
dump = 123 ∷ 100 ∷ 10 ∷ []

dumped : encode_checkpoint json one_rule ≡ ok (dump, 1)
unfolding encode_checkpoint encode_rows residents sort place HashMap.insert HashMap.get to_body
    with_line
dumped = refl

decode_checkpoint-encode_checkpoint_example :
    (line_count dump ≡ 1)
    × ((t : Snapshot) × (decode_checkpoint json dump ≡ ok t)
        × IsSame one_rule t
        × IsValid numbers t)
decode_checkpoint-encode_checkpoint_example =
    decode_checkpoint-encode_checkpoint json one_rule dump 1 one_rule-IsValid dumped
