-- ===== src/Wasm/Query.antt =====
-- The texts of the searches for transactions: `BuildQuery` of relayer/chains/wasm/types/types.go and
-- `GetQuery` of query.go.
use centralized_relay.Common.{
  ℕ, ◌≡◌, refl, sym, ap, ◌∙◌, List, [], ◌∷◌, ◌++◌, Bool, true, false, Text, codes, text_eq, decimal,
  ◌==◌, if◌then◌else◌, Bool-cases, inl, inr, Option,
}
use mathlib.Core.List.{append_assoc}
use centralized_relay.Wasm.Events.{Attribute, Event}

mutual
  pub data QueryExpression : Type 0 where
    query : Text → Text → Text → QueryExpression
    composite : Bool → Queries → QueryExpression

  pub data Queries : Type 0 where
    done : Queries
    next : QueryExpression → Queries → Queries

abbrev operator_eq : Text
operator_eq = codes "="

abbrev operator_gte : Text
operator_gte = codes ">="

abbrev operator_lte : Text
operator_lte = codes "<="

abbrev merger : Bool → Text
merger true = codes "OR"
merger false = codes "AND"

-- One round of the loop of `CompositeQuery.GetQuery`.
abbrev pub merge : Bool → Text → Text → Text
merge either result text =
    if text_eq text []
    then result
    else if text_eq result []
    then text
    else result ++ (b' ' ∷ merger either) ++ (b' ' ∷ text)

unfoldable mutual
  pub get_query : QueryExpression → Text
  get_query (query field operator value) =
      field ++ (if text_eq operator [] then operator_eq else operator) ++ value
  get_query (composite either qs) = get_queries either [] qs

  pub get_queries : Bool → Text → Queries → Text
  get_queries either result done = result
  get_queries either result (next q qs) = get_queries either (merge either result (get_query q)) qs

-- What a search asks for: the heights from `start` to `end`, and the events.
pub record TxSearchParam : Type 0 where
  pub start : ℕ
  pub end : ℕ
  pub events : List Event
  pub page : Option ℕ

unfoldable pub attribute_queries : Text → List Attribute → Queries → Queries
attribute_queries kind [] after = after
attribute_queries kind (a ∷ rest) after =
    next (query (kind ++ (b'.' ∷ a.key)) [] a.value) (attribute_queries kind rest after)

unfoldable pub event_queries : List Event → Queries
unfolding attribute_queries
event_queries [] = done
event_queries (e ∷ es) = attribute_queries e.kind e.attributes (event_queries es)

-- The difference is 0 exactly if the heights are the same uint64.
abbrev pub height_queries : ℕ → ℕ → Queries → Queries
height_queries start end after =
    if start == end
    then next (query (codes "tx.height") operator_eq (decimal start)) after
    else next (query (codes "tx.height") operator_gte (decimal start))
        (next (query (codes "tx.height") operator_lte (decimal end)) after)

unfoldable pub build_query : TxSearchParam → Text
unfolding get_query event_queries
build_query p = get_query (
    composite false
      (height_queries p.start p.end (next (composite false (event_queries p.events)) done)))

-- The texts of the expressions that are not empty, and `strings.Join` with a separator.
unfoldable pub texts : Queries → List Text
unfolding get_query
texts done = []
texts (next q qs) =
    let rest = texts qs in if text_eq (get_query q) [] then rest else get_query q ∷ rest

unfoldable pub join_with : Text → List Text → Text
join_with sep [] = []
join_with sep (t ∷ []) = t
join_with sep (t ∷ u ∷ ts) = t ++ sep ++ join_with sep (u ∷ ts)

abbrev pub separator : Bool → Text
separator either = (b' ' ∷ merger either) ++ (b' ' ∷ [])

join_with_merged :
    (sep r t : Text) (ts : List Text)
    → join_with sep ((r ++ sep ++ t) ∷ ts) ≡ r ++ sep ++ join_with sep (t ∷ ts)
unfolding join_with
join_with_merged sep r t [] = refl
join_with_merged sep r t (u ∷ ts) =
    ap (λ x. x ++ join_with sep (u ∷ ts)) (append_assoc (r ++ sep) t sep)
    ∙ append_assoc (r ++ sep) (t ++ sep) (join_with sep (u ∷ ts))

separated : (r m t : Text) → r ++ m ++ (b' ' ∷ t) ≡ r ++ (m ++ (b' ' ∷ [])) ++ t
separated r m t =
    sym (append_assoc (r ++ m) (b' ' ∷ []) t) ∙ ap (λ x. x ++ t) (append_assoc r m (b' ' ∷ []))

-- A result that is not empty is the first of the texts that are joined.
get_queries_onto :
    (either : Bool) (c : ℕ) (r : Text) (qs : Queries)
    → get_queries either (c ∷ r) qs ≡ join_with (separator either) ((c ∷ r) ∷ texts qs)
unfolding get_query join_with texts text_eq
get_queries_onto either c r done = refl
get_queries_onto either c r (next q qs) = elim (Bool-cases (text_eq (get_query q) [])) [
  | inl e ↦ rw (e) (get_queries_onto either c r qs)
  | inr e ↦ rw (e) (
      get_queries_onto either c (r ++ (b' ' ∷ merger either) ++ (b' ' ∷ get_query q)) qs
      ∙ ap (λ x. join_with (separator either) (x ∷ texts qs))
          (separated (c ∷ r) (b' ' ∷ merger either) (get_query q))
      ∙ join_with_merged (separator either) (c ∷ r) (get_query q) (texts qs))
]

-- The text of a composite query is that of its parts that are not empty, joined by its operator
-- between spaces.
pub get_query-composite :
    (either : Bool) (qs : Queries)
    → get_query (composite either qs) ≡ join_with (separator either) (texts qs)
unfolding get_query join_with texts text_eq
get_query-composite either done = refl
get_query-composite either (next q qs) =
    first_part (get_query q) refl (get_query-composite either qs)
  where
    first_part :
        (t : Text)
        → get_query q ≡ t
        → get_query (composite either qs) ≡ join_with (separator either) (texts qs)
        → get_queries either (merge either [] (get_query q)) qs
          ≡ join_with
              (separator either)
              (if text_eq (get_query q) [] then texts qs else get_query q ∷ texts qs)
    first_part [] e rest = rw e rest
    first_part (c ∷ r) e rest = rw e (get_queries_onto either c r qs)
