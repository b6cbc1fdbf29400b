-- ===== src/Protocol/Response/Grammar.antt =====
-- crates/protocol/src/response.rs: the responses as a grammar over whole frame sequences, and the
-- batches of rows of the header's columns.
use rsntr.Base.{
  ℕ, suc, ◌+◌, ◌≡◌, ◌≢◌, ◌↔◌, inl, inr, sym, true, Option, none, some, List, [], ◌∷◌, arith, Str,
  length, In, here, there, All, ==_iff, Bool-cases, any, =s_iff, ◌=s◌,
}
use rsntr.Protocol.Envelope.{
  ℤ, pos, negsuc, ResultHeader, Row, Done, Denied, ErrorEnvelope, Help, Media, Graph, Generic,
  EnvelopeObject,
}
use rsntr.Protocol.Response.{is_seq, undeclared, check_rows}

-- The optional id of a frame that may omit it.
abbrev pub IsFor : Str → Option Str → Type 0
IsFor id none = Unit
IsFor id (some own) = own ≡ id

-- The rows are numbered upwards from `n`.
abbrev pub Numbered : {Value : Type 0} → ℕ → List (Row Value) → Type 0
Numbered n [] = Unit
Numbered n (r ∷ rs) = (r.seq ≡ pos n) × Numbered (suc n) rs

-- Every cell names a column of the header.
abbrev pub Declared : {Value : Type 0} → List Str → List (Row Value) → Type 0
Declared columns rs = All (λ r. All (λ cell. In (cell.0) columns) r.cells) rs

module _ {Value Body : Type 0} (id : Str) where
  pub data Closes : List (EnvelopeObject Value Body) → Type 0 where
    done : (d : Done) → d.id ≡ id → Closes (EnvelopeObject.done d ∷ [])
    error : (e : ErrorEnvelope) → IsFor id e.id → Closes (EnvelopeObject.error e ∷ [])

  -- Batches of rows that follow the row of number `n - 1`.
  pub data Batches (columns : List Str) : ℕ → List (EnvelopeObject Value Body) → Type 0 where
    close : {n : ℕ} {objs : List (EnvelopeObject Value Body)} → Closes objs → Batches columns n objs
    batch :
        {n : ℕ} (rs : List (Row Value)) {objs : List (EnvelopeObject Value Body)}
        → rs ≢ []
        → Numbered n rs
        → Declared columns rs
        → Batches columns (n + length rs) objs
        → Batches columns n (EnvelopeObject.row rs ∷ objs)

  pub data Graphs : ℕ → List (EnvelopeObject Value Body) → Type 0 where
    close : {n : ℕ} {objs : List (EnvelopeObject Value Body)} → Closes objs → Graphs n objs
    graph :
        {n : ℕ} (g : Graph Body) {objs : List (EnvelopeObject Value Body)}
        → g.id ≡ id
        → g.seq ≡ pos n
        → Graphs (suc n) objs
        → Graphs n (EnvelopeObject.graph g ∷ objs)

  pub data Generics : List (EnvelopeObject Value Body) → Type 0 where
    close : {objs : List (EnvelopeObject Value Body)} → Closes objs → Generics objs
    generic :
        (g : Generic Body) {objs : List (EnvelopeObject Value Body)}
        → Generics objs
        → Generics (EnvelopeObject.generic g ∷ objs)

  -- A whole response whose first row or graph has number `n`.
  pub data IsResponse (n : ℕ) : List (EnvelopeObject Value Body) → Type 0 where
    table :
        (h : ResultHeader) {objs : List (EnvelopeObject Value Body)}
        → h.id ≡ id
        → Batches h.columns n objs
        → IsResponse n (EnvelopeObject.result h ∷ objs)
    chunks :
        (g : Graph Body) {objs : List (EnvelopeObject Value Body)}
        → g.id ≡ id
        → g.seq ≡ pos n
        → Graphs (suc n) objs
        → IsResponse n (EnvelopeObject.graph g ∷ objs)
    passthrough :
        (g : Generic Body) {objs : List (EnvelopeObject Value Body)}
        → Generics objs
        → IsResponse n (EnvelopeObject.generic g ∷ objs)
    denial : (d : Denied) → IsFor id d.id → IsResponse n (EnvelopeObject.denied d ∷ [])
    failure : (e : ErrorEnvelope) → IsFor id e.id → IsResponse n (EnvelopeObject.error e ∷ [])
    guidance : (h : Help) → IsFor id h.id → IsResponse n (EnvelopeObject.help h ∷ [])
    feed : (m : Media) → m.id ≡ id → IsResponse n (EnvelopeObject.media m ∷ [])

pub is_seq_iff : (s : ℤ) (n : ℕ) → (is_seq s n ≡ true) ↔ (s ≡ pos n)
is_seq_iff (pos m) n = ground (arith, ==_iff m n)
is_seq_iff (negsuc m) n = ground arith

In-of_any :
    (name : Str) (columns : List Str) → any (λ c. c =s name) columns ≡ true → In name columns
In-of_any name [] e = absurd (cc)
In-of_any name (c ∷ columns) e = elim (Bool-cases (c =s name)) [
  | inl same ↦ In.here (sym ((=s_iff c name).0 same))
  | inr other ↦ In.there (In-of_any name columns (ground arith))
]

any_of_In :
    (name : Str) (columns : List Str) → In name columns → any (λ c. c =s name) columns ≡ true
any_of_In name [] missing = elim missing [ ]
any_of_In name (c ∷ columns) (here same) = ground (arith, =s_iff c name, sym same)
any_of_In name (c ∷ columns) (there later) = ground (arith, any_of_In name columns later)

any_iff :
    (name : Str) (columns : List Str) → (any (λ c. c =s name) columns ≡ true) ↔ In name columns
any_iff name columns = (In-of_any name columns, any_of_In name columns)

pub undeclared_iff :
    {Value : Type 0} (columns : List Str) (cells : List (Str × Value))
    → (undeclared columns cells ≡ none) ↔ All (λ cell. In (cell.0) columns) cells
unfolding undeclared
undeclared_iff columns [] = ground arith
undeclared_iff columns ((name, value) ∷ cells) =
    ground (arith, any_iff name columns, undeclared_iff columns cells)

-- The batch loop accepts the numbered batches of declared columns, and moves on by their length.
pub check_rows_iff :
    {Value : Type 0} (columns : List Str) (n m : ℕ) (rs : List (Row Value))
    → (check_rows columns n rs ≡ (none, m))
      ↔ (Numbered n rs × Declared columns rs × (m ≡ n + length rs))
unfolding check_rows
check_rows_iff columns n m [] = ground arith
check_rows_iff columns n m (r ∷ rs) =
    ground (
      arith,
      is_seq_iff r.seq n,
      undeclared_iff columns r.cells,
      check_rows_iff columns (suc n) m rs,
    )
