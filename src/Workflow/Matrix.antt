-- ===== src/Workflow/Matrix.antt =====
-- `expandMatrix` of backend/internal/infrastructure/workflow/parser.go: the combinations for which
-- a job with a matrix runs.
use open_git.Base.{
  ℕ, zero, suc, ◌+◌, ◌*◌, ◌==◌, ltb, leb, Bool, true, false, ◌&&◌, not, List, [], ◌∷◌, ◌++◌, Bytes,
  codes, bytes_eq, length, take, map, Option, none, some, ◌>>=◌, if◌then◌else◌, String, str_eq,
}
use open_git.Workflow.Dag.{sort_strings}
pub mod Product
pub mod Rows
pub mod Expand

-- What YAML decodes to. A scalar is its dynamic type and a text of its value: one text for the
-- values that `==` takes for equal, and "NaN" for a NaN, which is equal to nothing.
mutual
  pub data Any : Type 0 where
    null : Any
    scalar : String → String → Any
    sequence : Anys → Any
    mapping : Entries → Any

  pub data Anys : Type 0 where
    no_items : Anys
    item : Any → Anys → Anys

  pub data Entries : Type 0 where
    no_entries : Entries
    entry : Bytes → Any → Entries → Entries

-- `map[string]any`: the entries, with a key at most once, in the order of the iteration.
abbrev pub Combo : Type 0
Combo = List (Bytes × Any)

unfoldable pub find : Bytes → Combo → Option Any
find key [] = none
find key (found ∷ combo) = if bytes_eq key found.0 then some found.1 else find key combo

unfoldable pub assign : Bytes → Any → Combo → Combo
assign key val [] = (key, val) ∷ []
assign key val (found ∷ combo) =
    let rest = assign key val combo in
    if bytes_eq key found.0 then (key, val) ∷ combo else found ∷ rest

abbrev is_nan : String → String → Bool
is_nan t a = str_eq t "float64" && str_eq a "NaN"

-- `a == b` on interfaces; `none` is the panic on two sequences or two mappings.
unfoldable pub any_eq : Any → Any → Option Bool
any_eq (sequence a) (sequence b) = none
any_eq (mapping a) (mapping b) = none
any_eq null null = some true
any_eq (scalar t a) (scalar u b) = some (str_eq t u && str_eq a b && not (is_nan t a))
any_eq _ _ = some false

-- A missing key reads as nil.
abbrev pub read : Option Any → Any
read none = null
read (some v) = v

unfoldable pub row_matches : Combo → Combo → Option Bool
row_matches combo [] = some true
row_matches combo (want ∷ pattern) =
    let rest = row_matches combo pattern in
    any_eq (read (find want.0 combo)) want.1 >>= λ same. if same then rest else some false

abbrev eq_if_present : Option Any → Any → Option Bool
eq_if_present none v = some true
eq_if_present (some cv) v = any_eq cv v

unfoldable pub include_row_matches : Combo → Combo → Option Bool
include_row_matches combo [] = some true
include_row_matches combo (want ∷ include) =
    let rest = include_row_matches combo include in
    eq_if_present (find want.0 combo) want.1 >>= λ same. if same then rest else some false

unfoldable pub merge_matrix_combo : Combo → Combo → Combo
merge_matrix_combo base [] = base
merge_matrix_combo base (over ∷ overlay) = merge_matrix_combo (assign over.0 over.1 base) overlay

abbrev pub max_matrix_combinations : ℕ
max_matrix_combinations = 256

-- The innermost loop of `cartesianProduct`. The flag says that the limit was passed.
unfoldable pub add_values : Bytes → Combo → List Any → List Combo → List Combo × Bool
add_values key combo [] next = (next, false)
add_values key combo (val ∷ values) next =
    let next' = next ++ assign key val combo ∷ [] in
    let rest = add_values key combo values next' in
    if ltb max_matrix_combinations (length next') then (next', true) else rest

unfoldable pub add_combos : Bytes → List Any → List Combo → List Combo → List Combo × Bool
add_combos key values [] next = (next, false)
add_combos key values (combo ∷ combos) next =
    let (next', overflow) = add_values key combo values next in
    let rest = add_combos key values combos next' in if overflow then (next', true) else rest

-- `map[string][]any`
pub record Axes : Type 0 where
  pub keys : List Bytes
  pub values : Bytes → List Any

unfoldable pub multiply : (Bytes → List Any) → List Bytes → List Combo → List Combo × Bool
multiply values [] result = (result, false)
multiply values (key ∷ keys) result =
    let (next, overflow) = add_combos key (values key) result [] in
    let rest = multiply values keys next in if overflow then (next, true) else rest

abbrev pub cartesian_product : Axes → List Combo × Bool
cartesian_product axes = multiply axes.values (sort_strings axes.keys) ([] ∷ [])

-- The loop over `combos` in `applyInclude`: the result, and whether a combination matched.
unfoldable pub include_matching :
    Combo → List Combo → List Combo → Bool → Option (List Combo × Bool)
include_matching row [] result matched = some (result, matched)
include_matching row (combo ∷ combos) result matched =
    let with_row = include_matching row combos (result ++ merge_matrix_combo combo row ∷ []) true in
    let without = include_matching row combos result matched in
    include_row_matches combo row >>= λ matches. if matches then with_row else without

-- What an unmatched row adds.
abbrev pub include_unmatched : Combo → List Combo → List Combo → List Combo
include_unmatched row [] result = result ++ merge_matrix_combo [] row ∷ []
include_unmatched row (first ∷ combos) result =
    if leb (length first) (length row)
    then result ++ merge_matrix_combo [] row ∷ []
    else result ++ map (λ combo. merge_matrix_combo combo row) (first ∷ combos)

-- Without combinations no row matches, and each is added alone.
unfoldable pub include_rows : List Combo → List Combo → List Combo → Option (List Combo)
include_rows combos [] result = some result
include_rows combos (row ∷ rows) result = include_matching row combos result false >>= λ found.
    include_rows combos rows (if found.1 then found.0 else include_unmatched row combos found.0)

abbrev pub apply_include : List Combo → List Combo → Option (List Combo)
apply_include combos rows = include_rows combos rows combos

unfoldable pub is_excluded : Combo → List Combo → Option Bool
is_excluded combo [] = some false
is_excluded combo (row ∷ rows) =
    let rest = is_excluded combo rows in
    row_matches combo row >>= λ matches. if matches then some true else rest

unfoldable pub apply_exclude : List Combo → List Combo → Option (List Combo)
apply_exclude [] rows = some []
apply_exclude (combo ∷ combos) rows = do
  excluded ← is_excluded combo rows
  rest ← apply_exclude combos rows
  some (if excluded then rest else combo ∷ rest)

pub data MatrixMessage : Type 0 where
  undecodable : MatrixMessage
  rows_not_a_sequence : MatrixMessage
  row_not_a_mapping : MatrixMessage
  product_too_large : MatrixMessage
  too_many : ℕ → MatrixMessage

unfoldable pub to_combo : Entries → Combo
to_combo no_entries = []
to_combo (entry key val entries) = (key, val) ∷ to_combo entries

unfoldable pub decode_items : Anys → List Combo × List MatrixMessage
decode_items no_items = ([], [])
decode_items (item val items) = add val (decode_items items)
  where
    add : Any → List Combo × List MatrixMessage → List Combo × List MatrixMessage
    add (mapping entries) rest = (to_combo entries ∷ rest.0, rest.1)
    add _ rest = (rest.0, row_not_a_mapping ∷ rest.1)

unfoldable pub decode_matrix_rows : Any → List Combo × List MatrixMessage
decode_matrix_rows (sequence items) = decode_items items
decode_matrix_rows _ = ([], rows_not_a_sequence ∷ [])

unfoldable pub to_values : Any → List Any
to_values (sequence items) = list items
  where
    list : Anys → List Any
    list no_items = []
    list (item val items) = val ∷ list items
to_values val = val ∷ []

-- The state of the loop over the raw mapping.
pub record Raw : Type 0 where
  pub include : List Combo
  pub exclude : List Combo
  pub axes : Axes
  pub diags : List MatrixMessage

abbrev pub with_axis : Bytes → Any → Axes → Axes
with_axis key val axes = record {
  keys = axes.keys ++ key ∷ [];
  values = λ k. if bytes_eq k key then to_values val else axes.values k;
}

unfoldable pub read_entry : Bytes → Any → Raw → Raw
read_entry key val raw =
    let (rows, diags) = decode_matrix_rows val in
    if bytes_eq key (codes "include")
    then record raw { include = rows; diags = raw.diags ++ diags }
    else if bytes_eq key (codes "exclude")
    then record raw { exclude = rows; diags = raw.diags ++ diags }
    else record raw { axes = with_axis key val raw.axes }

unfoldable pub read_entries : Combo → Raw → Raw
read_entries [] raw = raw
read_entries (found ∷ entries) raw = read_entries entries (read_entry found.0 found.1 raw)

abbrev pub nothing_read : Raw
nothing_read = record {
  include = [];
  exclude = [];
  axes = record { keys = []; values = λ _. [] };
  diags = [];
}

abbrev pub cut : List MatrixMessage → List Combo → List Combo × List MatrixMessage
cut diags combos =
    if ltb max_matrix_combinations (length combos)
    then (take max_matrix_combinations combos, diags ++ too_many (length combos) ∷ [])
    else (combos, diags)

unfoldable pub expand_raw : Raw → Option (List Combo × List MatrixMessage)
expand_raw raw =
    let (combos, overflow) = cartesian_product raw.axes in
    let rest = apply_include combos raw.include >>= λ more.
    apply_exclude more raw.exclude >>= λ left. some (cut raw.diags left) in
    if overflow then some ([], raw.diags ++ product_too_large ∷ []) else rest

-- `expandMatrix`, on the mapping that the node decodes to; `none` is the panic.
unfoldable pub expand_matrix : Option Combo → Option (List Combo × List MatrixMessage)
expand_matrix none = some ([], undecodable ∷ [])
expand_matrix (some raw) = expand_raw (read_entries raw nothing_read)
