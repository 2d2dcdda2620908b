-- ===== src/Expsync/Statement.antt =====
-- The statement that updates the exploits: the trimmed argument list is that of its rows, separated by
-- commas.
use vuln4shift_backend.Prelude.{
  ℕ, ◌≡◌, refl, sym, ap, ◌∙◌, Option, some, List, [], ◌∷◌, ◌++◌, append_assoc, append-nil, arith,
  true, false, Str, codes, str_eq,
}
use vuln4shift_backend.Prelude.GoMap.{GoMap, lookup, has}
use vuln4shift_backend.Expsync.{ExploitMetadata, Exploits, value_row, arg_list, but_last, trimmed}

-- The rows in the syntax of SQL.
unfoldable pub separated : GoMap Str Str → Str
separated [] = []
separated ((cve, json) ∷ []) = value_row cve json
separated ((cve, json) ∷ row ∷ rows) = value_row cve json ++ (codes ", " ++ separated (row ∷ rows))

-- What `argList` is before it is trimmed.
pieces : GoMap Str Str → Str
pieces [] = []
pieces ((cve, json) ∷ rows) = codes " " ++ (value_row cve json ++ (codes "," ++ pieces rows))

-- The rows are those of the exploits, with their metadata in JSON.
abbrev pub Marshals : (List ExploitMetadata → Option Str) → Exploits → GoMap Str Str → Type 0
Marshals marshal [] [] = Unit
Marshals marshal ((cve, metadata) ∷ exploits) ((cve', json) ∷ rows) =
    (cve ≡ cve') × (marshal metadata ≡ some json) × Marshals marshal exploits rows
Marshals marshal _ _ = true ≡ false

pub has-Marshals :
    (marshal : List ExploitMetadata → Option Str) (exploits : Exploits) (rows : GoMap Str Str)
    (n : Str)
    → Marshals marshal exploits rows
    → has n exploits ≡ has n rows
unfolding lookup
has-Marshals marshal [] [] n h = refl
has-Marshals marshal [] (row ∷ rows) n h = ground (arith, h)
has-Marshals marshal (e ∷ exploits) [] n h = ground (arith, h)
has-Marshals marshal ((cve, metadata) ∷ exploits) ((cve', json) ∷ rows) n (same, e, h) =
    ground (arith, same, has-Marshals marshal exploits rows n h)

append-piece :
    (args row rest : Str)
    → (args ++ (codes " " ++ (row ++ codes ","))) ++ rest
      ≡ args ++ (codes " " ++ (row ++ (codes "," ++ rest)))
append-piece args row rest =
    append_assoc args (codes " " ++ (row ++ codes ",")) rest
    ∙ ap (λ t. args ++ (codes " " ++ t)) (append_assoc row (codes ",") rest)

arg_list-pieces :
    (marshal : List ExploitMetadata → Option Str) (exploits : Exploits) (rows : GoMap Str Str)
    (args : Str)
    → Marshals marshal exploits rows
    → arg_list marshal exploits args ≡ some (args ++ pieces rows)
unfolding arg_list pieces
arg_list-pieces marshal [] [] args h = ap some (sym (append-nil args))
arg_list-pieces marshal [] (row ∷ rows) args h = ground (arith, h)
arg_list-pieces marshal (e ∷ exploits) [] args h = ground (arith, h)
arg_list-pieces marshal ((cve, metadata) ∷ exploits) ((cve', json) ∷ rows) args (same, e, h) =
    let row = value_row cve json in
    let ih = arg_list-pieces marshal exploits rows (args ++ (codes " " ++ (row ++ codes ","))) h in
    let renamed =
      ap (λ c. args ++ (codes " " ++ (value_row c json ++ (codes "," ++ pieces rows)))) same in
    rw (e, arg_list) (ih ∙ ap some (append-piece args row (pieces rows) ∙ renamed))

pieces-separated :
    (cve json : Str) (rows : GoMap Str Str)
    → pieces ((cve, json) ∷ rows) ≡ codes " " ++ (separated ((cve, json) ∷ rows) ++ codes ",")
unfolding pieces separated
pieces-separated cve json [] = refl
pieces-separated cve json ((cve', json') ∷ rows) =
    let rest = separated ((cve', json') ∷ rows) in
    ap (λ t. codes " " ++ (value_row cve json ++ (codes "," ++ t)))
      (pieces-separated cve' json' rows)
    ∙ ap (λ t. codes " " ++ t)
        (sym (append_assoc (value_row cve json) (codes ", " ++ rest) (codes ",")))

but_last-append : (s : Str) (c : ℕ) → but_last (s ++ c ∷ []) ≡ s
but_last-append [] c = refl
but_last-append (d ∷ []) c = refl
but_last-append (d ∷ e ∷ s) c = ap (λ t. d ∷ t) (but_last-append (e ∷ s) c)

pub trimmed-arg_list :
    (marshal : List ExploitMetadata → Option Str) (cve json : Str) (rows : GoMap Str Str)
    (exploits : Exploits)
    → Marshals marshal exploits ((cve, json) ∷ rows)
    → (args : Str) × (arg_list marshal exploits [] ≡ some args)
      × (trimmed args ≡ separated ((cve, json) ∷ rows))
trimmed-arg_list marshal cve json rows exploits h = (
  pieces ((cve, json) ∷ rows),
  arg_list-pieces marshal exploits ((cve, json) ∷ rows) [] h,
  ap trimmed (pieces-separated cve json rows)
      ∙ but_last-append (separated ((cve, json) ∷ rows)) b',',
)
