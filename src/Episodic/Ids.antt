-- ===== src/Episodic/Ids.antt =====
-- Which ids the operations of src/engram/episodic keep, in the collection and in the index.
use engram_mem.Base.{
  ℕ, ◌≤◌, ◌≡◌, refl, sym, ◌∙◌, ap, inl, inr, String, Bool, true, false, not, ◌&&◌, ◌||◌, Option,
  List, [], ◌∷◌, ◌++◌, map, filter_by, count_by, take, length, arith, str_eq, str_eq_iff,
  Bool-cases, leb,
}
use engram_mem.Base.Sort.{sort_down, length-sort_down, count-sort_down, count-take-le}
use engram_mem.Base.Members.{take_of_length-le, filter_by-all}
use engram_mem.Episodic.{
  passes, build_filter, Point, FtsRow, contains, ids_of, scroll_order, get_many, limit_or_100,
  retrieve, fts_delete, fts_insert_batch, fts_get_all_ids, fts_delete_all,
}
use engram_mem.Episodic.Maintenance.{everything, set_of, minus, row_of_point, reconcile_rows}

pub contains-append :
    (x : String) (xs ys : List String) → contains x (xs ++ ys) ≡ (contains x xs || contains x ys)
contains-append x [] ys = refl
contains-append x (y ∷ xs) ys = ground (arith, contains-append x xs ys)

pub contains-minus :
    (x : String) (xs ys : List String)
    → contains x (minus xs ys) ≡ (contains x xs && not (contains x ys))
unfolding minus
contains-minus x [] ys = refl
contains-minus x (y ∷ xs) ys = elim (Bool-cases (str_eq x y)) [
  | inl e ↦
      let same : x ≡ y = (str_eq_iff x y).0 e in
      ground (arith, contains-minus x xs ys, ap (λ z. contains z ys) same, e)
  | inr e ↦ ground (arith, contains-minus x xs ys, e)
]

pub contains-set_of : (x : String) (xs : List String) → contains x (set_of xs) ≡ contains x xs
unfolding set_of
contains-set_of x [] = refl
contains-set_of x (y ∷ xs) = elim (Bool-cases (str_eq x y)) [
  | inl e ↦
      let same : x ≡ y = (str_eq_iff x y).0 e in
      ground (arith, contains-set_of x xs, ap (λ z. contains z (set_of xs)) same, e)
  | inr e ↦ ground (arith, contains-set_of x xs, e)
]

abbrev pub has_row : String → List FtsRow → Bool
has_row x rows = contains x (fts_get_all_ids rows)

has_row-fts_delete :
    (x id : String) (rows : List FtsRow)
    → has_row x (fts_delete id rows) ≡ (has_row x rows && not (str_eq id x))
unfolding fts_delete fts_get_all_ids
has_row-fts_delete x id [] = refl
has_row-fts_delete x id (r ∷ rows) =
    ground
      (arith, has_row-fts_delete x id rows, str_eq_iff x r.id, str_eq_iff r.id id, str_eq_iff id x)

pub has_row-fts_delete_all :
    (x : String) (ids : List String) (rows : List FtsRow)
    → has_row x (fts_delete_all ids rows) ≡ (has_row x rows && not (contains x ids))
unfolding fts_delete_all
has_row-fts_delete_all x [] rows = ground arith
has_row-fts_delete_all x (id ∷ ids) rows = ground (
  arith,
  has_row-fts_delete_all x ids (fts_delete id rows),
  has_row-fts_delete x id rows,
  str_eq_iff x id,
  str_eq_iff id x,
)

has_row-append :
    (x : String) (rows batch : List FtsRow)
    → has_row x (rows ++ batch) ≡ (has_row x rows || has_row x batch)
unfolding fts_get_all_ids
has_row-append x [] batch = refl
has_row-append x (r ∷ rows) batch = ground (arith, has_row-append x rows batch)

has_row-without :
    (x : String) (ids : List String) (rows : List FtsRow)
    → has_row x (filter_by (λ r. not (contains r.id ids)) rows)
      ≡ (has_row x rows && not (contains x ids))
unfolding fts_get_all_ids
has_row-without x ids [] = refl
has_row-without x ids (r ∷ rows) = elim (Bool-cases (str_eq x r.id)) [
  | inl e ↦
      let same : x ≡ r.id = (str_eq_iff x r.id).0 e in
      ground (arith, has_row-without x ids rows, ap (λ z. contains z ids) same, e)
  | inr e ↦ ground (arith, has_row-without x ids rows, e)
]

pub has_row-fts_insert_batch :
    (x : String) (batch rows : List FtsRow)
    → has_row x (fts_insert_batch batch rows) ≡ (has_row x rows || has_row x batch)
unfolding fts_insert_batch fts_get_all_ids
has_row-fts_insert_batch x batch rows = ground (
  arith,
  has_row-append x (filter_by (λ r. not (contains r.id (fts_get_all_ids batch))) rows) batch,
  has_row-without x (fts_get_all_ids batch) rows,
)

has_row-retrieved :
    (x : String) (ids : List String) (points : List Point)
    → has_row x (map row_of_point (retrieve ids points))
      ≡ (contains x (ids_of points) && contains x ids)
unfolding row_of_point retrieve fts_get_all_ids
has_row-retrieved x ids [] = refl
has_row-retrieved x ids (p ∷ points) = elim (Bool-cases (str_eq x p.id)) [
  | inl e ↦
      let same : x ≡ p.id = (str_eq_iff x p.id).0 e in
      ground (arith, has_row-retrieved x ids points, ap (λ z. contains z ids) same, e)
  | inr e ↦ ground (arith, has_row-retrieved x ids points, e)
]

pub has_row-reconcile_rows :
    (x : String) (orphaned missing : List String) (points : List Point) (rows : List FtsRow)
    → has_row x (reconcile_rows orphaned missing points rows) ≡ (
        (has_row x rows && not (contains x orphaned))
        || (contains x (ids_of points) && contains x missing))
unfolding reconcile_rows
has_row-reconcile_rows x orphaned missing points rows = ground (
  arith,
  has_row-fts_insert_batch x (map row_of_point (retrieve missing points))
      (fts_delete_all orphaned rows),
  has_row-fts_delete_all x orphaned rows,
  has_row-retrieved x missing points,
)

pub contains-count :
    (x : String) (points : List Point)
    → contains x (ids_of points) ≡ leb 1 (count_by (λ p. str_eq x p.id) points)
contains-count x [] = refl
contains-count x (p ∷ points) = ground (arith, contains-count x points)

pub contains-scroll_order :
    (x : String) (has_index : Bool) (points : List Point)
    → contains x (ids_of (scroll_order has_index points)) ≡ contains x (ids_of points)
unfolding scroll_order
contains-scroll_order x false points = refl
contains-scroll_order x true points = ground (
  arith,
  contains-count x (sort_down (λ p. p.timestamp) points),
  contains-count x points,
  count-sort_down (λ p. p.timestamp) (λ p. str_eq x p.id) points,
)

contains-take :
    (x : String) (n : ℕ) (points : List Point)
    → contains x (ids_of (take n points)) ≡ true
    → contains x (ids_of points) ≡ true
contains-take x n points h = ground (
  arith,
  contains-count x (take n points),
  contains-count x points,
  count-take-le (λ p. str_eq x p.id) n points,
  h,
)

pub length-scroll_order :
    (has_index : Bool) (points : List Point)
    → length (scroll_order has_index points) ≡ length points
unfolding scroll_order
length-scroll_order false points = refl
length-scroll_order true points = length-sort_down (λ p. p.timestamp) points

-- The answer of the collection to a request for everything.
pub get_many-everything :
    (has_index : Bool) (limit offset : Option ℕ) (points : List Point)
    → get_many has_index everything limit offset points
      ≡ take (limit_or_100 limit) (scroll_order has_index points)
unfolding get_many
get_many-everything has_index limit offset points =
    ap (λ ps. take (limit_or_100 limit) (scroll_order has_index ps))
      (filter_by-all (passes (build_filter everything)) points (λ p. refl))

-- A page has only ids of the collection.
pub contains-get_many :
    (x : String) (has_index : Bool) (limit offset : Option ℕ) (points : List Point)
    → contains x (ids_of (get_many has_index everything limit offset points)) ≡ true
    → contains x (ids_of points) ≡ true
contains-get_many x has_index limit offset points h =
    sym (contains-scroll_order x has_index points)
    ∙ contains-take x (limit_or_100 limit) (scroll_order has_index points) (
        sym (ap (λ ps. contains x (ids_of ps)) (get_many-everything has_index limit offset points))
        ∙ h)

-- Where the limit is at least the size of the collection, it has them all.
pub contains-get_many_all :
    (x : String) (has_index : Bool) (limit offset : Option ℕ) (points : List Point)
    → length points ≤ limit_or_100 limit
    → contains x (ids_of (get_many has_index everything limit offset points))
      ≡ contains x (ids_of points)
contains-get_many_all x has_index limit offset points h =
    let all =
      take_of_length-le (limit_or_100 limit) (scroll_order has_index points)
        (omega (arith, length-scroll_order has_index points, h)) in
    ap (λ ps. contains x (ids_of ps)) (get_many-everything has_index limit offset points ∙ all)
    ∙ contains-scroll_order x has_index points
