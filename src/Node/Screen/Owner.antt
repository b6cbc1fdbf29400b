-- ===== src/Node/Screen/Owner.antt =====
-- crates/node/src/pipeline.rs: which statements the owner's channel clears.
use rsntr.Base.{◌≡◌, false, codes}
use rsntr.Node.Authorizer.{
  Lane, Lane.owner, AuthAction, attach, detach, transaction, savepoint, select, recursive, pragma,
  function, insert, delete, read_column, update, ddl, unknown, eq_ignore_ascii_case,
}

-- All that the owner may not do: attach or detach a database, load an extension, or an action that is
-- not known.
abbrev pub Ordinary : AuthAction → Type 0
Ordinary attach = ⊥
Ordinary detach = ⊥
Ordinary (unknown code) = ⊥
Ordinary (function name) = eq_ignore_ascii_case name (codes "load_extension") ≡ false
Ordinary transaction = Unit
Ordinary savepoint = Unit
Ordinary select = Unit
Ordinary recursive = Unit
Ordinary (pragma name) = Unit
Ordinary (insert table) = Unit
Ordinary (delete table) = Unit
Ordinary (read_column table column) = Unit
Ordinary (update table column) = Unit
Ordinary (ddl statement) = Unit
