-- ===== src/Parser/Tree.antt =====
-- src/parser/parsetree.c: nodes in the memory of the process, which the parser links to a tree.
use squel.Common.{
  Bytes, List, Option, Run, [], at, codes, defined, length, ltb, none, ok, out_of_bounds, set, some,
  ℕ, ◌++◌, ◌-◌, ◌>>=◌, ◌>>◌, ◌^◌, ◌∷◌,
}
use squel.Config.{char_max_size}
use squel.Parser.Syntax.{NodeType, root}

-- The pointers are places in the memory below; `none` is NULL.
pub record Node : Type 0 where
  pub type : NodeType
  pub content : Bytes
  pub next : Option ℕ
  pub child : Option ℕ
  pub alias : Bytes
  pub tblref : Bytes
  pub identifier : ℕ

-- `createNode`: `strcpy` needs room for the terminator, and -1 is the largest `size_t`.
unfoldable pub create_node : NodeType → Bytes → Run Node
create_node type content = do
  defined (ltb (length content) char_max_size) out_of_bounds
  ok (record {
    type = type;
    content = content;
    next = none;
    child = none;
    alias = [];
    tblref = [];
    identifier = 2 ^ 64 - 1;
  })

-- `createParsetree`: the memory with the root at place 0.
unfoldable pub create_parsetree : Run (List Node)
unfolding create_node
create_parsetree = do node ← create_node root (codes "root"); ok (node ∷ [])

-- `addChild` and `addNext` give the place of the new node.
unfoldable pub add_child : List Node → ℕ → NodeType → Bytes → Run (ℕ × List Node)
unfolding create_node at
add_child nodes parent type content = do
  new ← create_node type content
  node ← at nodes parent
  ok (length nodes, set nodes parent (record node { child = some (length nodes) }) ++ new ∷ [])

unfoldable pub add_next : List Node → ℕ → NodeType → Bytes → Run (ℕ × List Node)
unfolding create_node at
add_next nodes parent type content = do
  new ← create_node type content
  node ← at nodes parent
  ok (length nodes, set nodes parent (record node { next = some (length nodes) }) ++ new ∷ [])
