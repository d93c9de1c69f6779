-- ===== src/Filters/Cells.antt =====
-- kolla_ansible/nova_filters.py.
use Prim.Native.Char.{code}
use text.Mathlib.Text.{starts_with}
use irnmn.Prelude.{
  String, Bool, true, false, not, ◌&&◌, ◌||◌, ◌==◌, nat_eq, leb, all, is_blank, List, [], ◌∷◌, map,
  select, Option, none, some, ◌&◌, if◌then◌else◌,
}
use irnmn.Text.{ends_with}
use irnmn.Text.Split.{split_all}
use irnmn.Effect.{Result, ok, err, external}

-- A service definition; `haproxy` is empty where the definition has none.
pub record CellService (H R : Type 0) : Type 0 where
  pub haproxy : List (String × H)
  pub other_entries : R

abbrev pub namespace : String → String → String
namespace cell_name name = if is_blank cell_name then name else name & "_" & cell_name

abbrev pub namespace_keys : {A : Type 0} → String → List (String × A) → List (String × A)
namespace_keys cell_name entries = map (λ entry. (namespace cell_name entry.0, entry.1)) entries

abbrev pub namespace_service : {H R : Type 0} → String → CellService H R → CellService H R
namespace_service cell_name service = record {
  haproxy = namespace_keys cell_name service.haproxy;
  other_entries = service.other_entries;
}

unfoldable pub namespace_haproxy_for_cell :
    {H R : Type 0} → List (String × CellService H R) → String → List (String × CellService H R)
namespace_haproxy_for_cell services cell_name =
    map (λ entry. (entry.0, namespace_service cell_name entry.1))
      (namespace_keys cell_name services)

-- The groups of a matched line.
pub record CellMatch : Type 0 where
  pub cell_name : Option String
  pub cell_uuid : String
  pub cell_message_queue : String
  pub cell_database : String
  pub cell_disabled : String

-- `[0-9a-f-]*`
abbrev pub is_uuid : String → Bool
is_uuid String.[] = true
is_uuid (String.◌∷◌ c s) =
    (leb 48 (code c) && leb (code c) 57
      || leb 97 (code c) && leb (code c) 102
      || nat_eq (code c) 45)
    && is_uuid s

abbrev pub are_bars : List String → Bool
are_bars words = all (λ word. word == "|") words

abbrev pub if_match : Bool → CellMatch → Option CellMatch
if_match true cell = some cell
if_match false cell = none

-- The pattern on the words between the spaces; the name may be left out.
abbrev pub match_words : List String → Option CellMatch
match_words (b0 ∷ name ∷ b1 ∷ uuid ∷ b2 ∷ queue ∷ b3 ∷ database ∷ b4 ∷ disabled ∷ b5 ∷ []) =
    if_match (are_bars (b0 ∷ b1 ∷ b2 ∷ b3 ∷ b4 ∷ b5 ∷ []) && is_uuid uuid) (record {
      cell_name = some name;
      cell_uuid = uuid;
      cell_message_queue = queue;
      cell_database = database;
      cell_disabled = disabled;
    })
match_words (b0 ∷ b1 ∷ uuid ∷ b2 ∷ queue ∷ b3 ∷ database ∷ b4 ∷ disabled ∷ b5 ∷ []) =
    if_match (are_bars (b0 ∷ b1 ∷ b2 ∷ b3 ∷ b4 ∷ b5 ∷ []) && is_uuid uuid) (record {
      cell_name = none;
      cell_uuid = uuid;
      cell_message_queue = queue;
      cell_database = database;
      cell_disabled = disabled;
    })
match_words words = none

-- A line without a name has two spaces or more after the first bar.
abbrev pub check_spaces : String → Option CellMatch → Option CellMatch
check_spaces line none = none
check_spaces line (some cell) = elim cell.cell_name [
  | none ↦ if starts_with line "|  " then some cell else none
  | some name ↦ some cell
]

-- `p.match(line)`: no space comes before the first bar or after the last one.
unfoldable pub match_cell : String → Option CellMatch
unfolding split_all
match_cell line =
    if starts_with line "|" && ends_with "|" line
    then check_spaces line (match_words (select (λ word. not (is_blank word)) (split_all 32 line)))
    else none

abbrev pub name_of : CellMatch → String
name_of cell = elim cell.cell_name [ none ↦ "" | some name ↦ name ]

abbrev pub add_if_named : String → Option CellMatch → List CellMatch → List CellMatch
add_if_named cell_name none cells = cells
add_if_named cell_name (some cell) cells = if name_of cell == cell_name then cell ∷ cells else cells

-- The loop over the lines.
unfoldable pub cells_named : String → List String → List CellMatch
unfolding match_cell
cells_named cell_name [] = []
cells_named cell_name (line ∷ rest) =
    add_if_named cell_name (match_cell line) (cells_named cell_name rest)

abbrev pub only_cell : String → List CellMatch → Result (Option CellMatch)
only_cell cell_name [] = ok none
only_cell cell_name (cell ∷ []) = ok (some cell)
only_cell cell_name (cell ∷ other ∷ rest) =
    err (external ("Cell: " & cell_name & " has duplicates. Manual cleanup required."))

unfoldable pub extract_cell : List String → String → Result (Option CellMatch)
unfolding cells_named
extract_cell stdout_lines cell_name = only_cell cell_name (cells_named cell_name stdout_lines)
