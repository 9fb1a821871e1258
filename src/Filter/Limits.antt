-- ===== src/Filter/Limits.antt =====
-- `validate_limits` of parseon-core/src/filter.rs: the bounds on an untrusted expression.
pub mod Counts
use parseon.Common.{
  ℕ, zero, suc, ◌+◌, ◌*◌, String, List, [], ◌∷◌, ◌++◌, leb, ltb, ◌&&◌, if◌then◌else◌, Result, ok,
  err, ◌>>=◌, ◌>>◌, ensure, ok_or,
}
use parseon.Filter.Ast.{
  FilterExpression, Expressions, Segment, key, index, Message, FilterError, Codecs,
}

abbrev pub max_bytes : ℕ
max_bytes = 16 * 1024

abbrev pub max_nodes : ℕ
max_nodes = 128

abbrev pub max_depth : ℕ
max_depth = 16

abbrev pub max_children : ℕ
max_children = 32

-- `FilterError::at`
abbrev pub error_at : List Segment → Message → FilterError
error_at path message = record { path = path; message = message }

unfoldable pub length_of : Expressions → ℕ
length_of Expressions.nil = 0
length_of (Expressions.cons e es) = suc (length_of es)

-- The head of `visit`: counts the node, and tests the node count and the depth.
enter : ℕ → ℕ → List Segment → Result FilterError ℕ
enter depth nodes path =
    if ltb max_nodes (nodes + 1)
    then err (error_at path Message.too_many_nodes)
    else if ltb max_depth depth
    then err (error_at path Message.too_deep)
    else ok (nodes + 1)

-- The tests on a node with children: those of every node, then the one on `children.len()`.
enter_children : Expressions → ℕ → ℕ → List Segment → String → Result FilterError ℕ
unfolding enter length_of
enter_children es depth nodes path name = do
  counted ← enter depth nodes path
  ensure (leb 2 (length_of es) && leb (length_of es) max_children)
      (error_at (path ++ key name ∷ []) Message.wrong_arity)
  ok counted

-- `visit`: the mutable node counter is handed through and returned.
unfoldable mutual
  unfolding enter enter_children

  pub visit : FilterExpression → ℕ → ℕ → List Segment → Result FilterError ℕ
  visit (FilterExpression.and es) depth nodes path = do
    counted ← enter_children es depth nodes path "and"
    visit_children es (depth + 1) counted (path ++ key "and" ∷ []) 0
  visit (FilterExpression.or es) depth nodes path = do
    counted ← enter_children es depth nodes path "or"
    visit_children es (depth + 1) counted (path ++ key "or" ∷ []) 0
  visit (FilterExpression.not e) depth nodes path = do
    counted ← enter depth nodes path
    visit e (depth + 1) counted (path ++ key "not" ∷ [])
  visit (FilterExpression.compare c) depth nodes path = enter depth nodes path

  -- The loop over `children.iter().enumerate()`.
  pub visit_children : Expressions → ℕ → ℕ → List Segment → ℕ → Result FilterError ℕ
  visit_children Expressions.nil depth nodes path i = ok nodes
  visit_children (Expressions.cons e es) depth nodes path i = do
    counted ← visit e depth nodes (path ++ index i ∷ [])
    visit_children es depth counted path (i + 1)

abbrev pub root : List Segment
root = key "filter" ∷ []

unfoldable pub validate_limits : Codecs → FilterExpression → Result FilterError (Unit {0})
unfolding visit
validate_limits codecs expression = do
  bytes ← ok_or (codecs.encoded_len expression) (error_at root Message.not_serializable)
  ensure (leb bytes max_bytes) (error_at root Message.filter_too_long)
  counted ← visit expression 1 0 root
  ok tt
