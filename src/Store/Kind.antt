-- ===== src/Store/Kind.antt =====
-- `EntityKind` of crates/uc-db/src/store/action.rs, with its derived order.
use Prim.Native.Nat.{compare, Ordering}
use Prim.Native.Nat.Ordering.{eq}
use unity_catalog.Prelude.{ℕ, ◌≡◌, refl, ap, sym, ◌∙◌, ◌==◌, if◌then◌else◌}
use unity_catalog.Prelude.Order.{
  Ord, eq_of_compare, compare_refl, lt_of_compare-gt, gt_of_compare-lt, compare-lt_trans,
}

pub data EntityKind : Type 0 where
  metastore catalog schema table : EntityKind
  column volume function function_parameter : EntityKind
  registered_model model_version staging_table user : EntityKind
  credential external_location property casbin_rule : EntityKind

-- the place in the declaration, by which the derived `Ord` compares
abbrev pub rank : EntityKind → ℕ
rank metastore = 0
rank catalog = 1
rank schema = 2
rank table = 3
rank column = 4
rank volume = 5
rank function = 6
rank function_parameter = 7
rank registered_model = 8
rank model_version = 9
rank staging_table = 10
rank user = 11
rank credential = 12
rank external_location = 13
rank property = 14
rank casbin_rule = 15

kind_at : ℕ → EntityKind
kind_at n =
    if n == 0
    then metastore
    else if n == 1
    then catalog
    else if n == 2
    then schema
    else if n == 3
    then table
    else if n == 4
    then column
    else if n == 5
    then volume
    else if n == 6
    then function
    else if n == 7
    then function_parameter
    else if n == 8
    then registered_model
    else if n == 9
    then model_version
    else if n == 10
    then staging_table
    else if n == 11
    then user
    else if n == 12
    then credential
    else if n == 13
    then external_location
    else if n == 14
    then property
    else casbin_rule

kind_at-rank : (k : EntityKind) → kind_at (rank k) ≡ k
unfolding kind_at
kind_at-rank metastore = refl
kind_at-rank catalog = refl
kind_at-rank schema = refl
kind_at-rank table = refl
kind_at-rank column = refl
kind_at-rank volume = refl
kind_at-rank function = refl
kind_at-rank function_parameter = refl
kind_at-rank registered_model = refl
kind_at-rank model_version = refl
kind_at-rank staging_table = refl
kind_at-rank user = refl
kind_at-rank credential = refl
kind_at-rank external_location = refl
kind_at-rank property = refl
kind_at-rank casbin_rule = refl

pub eq_of_rank : (a b : EntityKind) → rank a ≡ rank b → a ≡ b
eq_of_rank a b h = sym (kind_at-rank a) ∙ ap kind_at h ∙ kind_at-rank b

abbrev pub kind_cmp : EntityKind → EntityKind → Ordering
kind_cmp a b = compare (rank a) (rank b)

module _ (a b : EntityKind) where
  pub eq_of_kind_cmp : kind_cmp a b ≡ eq → a ≡ b
  eq_of_kind_cmp h = eq_of_rank a b (eq_of_compare (rank a) (rank b) h)

instance abbrev pub kind_ord : Ord EntityKind
kind_ord = record {
  cmp = kind_cmp;
  cmp_refl = λ a. compare_refl (rank a);
  eq_of_cmp = eq_of_kind_cmp;
  lt_of_gt = λ a b. lt_of_compare-gt (rank a) (rank b);
  gt_of_lt = λ a b. gt_of_compare-lt (rank a) (rank b);
  lt_trans = λ a b c. compare-lt_trans (rank a) (rank b) (rank c);
}
