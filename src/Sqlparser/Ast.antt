-- ===== src/Sqlparser/Ast.antt =====
-- sqlparser/ast.go: the statements. An operator, a direction and the like are the source's strings.
-- A nil slice is the empty list: the parser leaves out a clause that has nothing in it.
use cm.Common.{ℕ, List, Bool, Option}

pub record ColName : Type 0 where
  pub name : List ℕ
  pub qualifier : Option (List ℕ)

pub record TableName : Type 0 where
  pub name : List ℕ
  pub qualifier : Option (List ℕ)

pub record IndexHints : Type 0 where
  pub typ : List ℕ
  pub indexes : List (List ℕ)

mutual
  pub data Expr : Type 0 where
    bool_expr : BoolExpr → Expr
    val_expr : ValExpr → Expr

  -- The operator stands first where there is one.
  pub data BoolExpr : Type 0 where
    and_expr or_expr : BoolExpr → BoolExpr → BoolExpr
    not_expr paren_bool_expr : BoolExpr → BoolExpr
    comparison_expr : List ℕ → ValExpr → ValExpr → BoolExpr
    range_cond : List ℕ → ValExpr → ValExpr → ValExpr → BoolExpr
    null_check : List ℕ → ValExpr → BoolExpr
    exists_expr : SelectStatement → BoolExpr

  pub data ValExpr : Type 0 where
    str_val num_val val_arg list_arg : List ℕ → ValExpr
    null_val : ValExpr
    col_name : ColName → ValExpr
    val_tuple : ValExprs → ValExpr
    subquery : SelectStatement → ValExpr
    binary_expr : ℕ → Expr → Expr → ValExpr
    unary_expr : ℕ → Expr → ValExpr
    func_expr : List ℕ → Bool → SelectExprs → ValExpr
    case_expr : OptVal → Whens → OptVal → ValExpr

  pub data ValExprs : Type 0 where
    no_vals : ValExprs
    vals : ValExpr → ValExprs → ValExprs

  -- An interface that may be nil.
  pub data OptVal : Type 0 where
    nil_val : OptVal
    a_val : ValExpr → OptVal

  pub data Whens : Type 0 where
    no_whens : Whens
    whens : BoolExpr → ValExpr → Whens → Whens

  pub data SelectExpr : Type 0 where
    star_expr : Option (List ℕ) → SelectExpr
    non_star_expr : Expr → Option (List ℕ) → SelectExpr

  pub data SelectExprs : Type 0 where
    no_selects : SelectExprs
    selects : SelectExpr → SelectExprs → SelectExprs

  pub data SimpleTableExpr : Type 0 where
    table_name : TableName → SimpleTableExpr
    table_subquery : SelectStatement → SimpleTableExpr

  pub data OptBool : Type 0 where
    nil_bool : OptBool
    a_bool : BoolExpr → OptBool

  pub data TableExpr : Type 0 where
    aliased_table_expr : SimpleTableExpr → Option (List ℕ) → Option IndexHints → TableExpr
    paren_table_expr : TableExpr → TableExpr
    join_table_expr : TableExpr → List ℕ → TableExpr → OptBool → TableExpr

  pub data TableExprs : Type 0 where
    no_tables : TableExprs
    tables : TableExpr → TableExprs → TableExprs

  -- A pointer that may be nil.
  pub data Where : Type 0 where
    nil_where : Where
    a_where : List ℕ → BoolExpr → Where

  pub data OrderBy : Type 0 where
    no_orders : OrderBy
    orders : ValExpr → List ℕ → OrderBy → OrderBy

  -- A pointer that may be nil: the offset, which may be nil too, and the row count.
  pub data Limit : Type 0 where
    nil_limit : Limit
    a_limit : OptVal → ValExpr → Limit

  -- The fields of a `Select` in the source's order.
  pub data SelectStatement : Type 0 where
    select :
        List (List ℕ)
        → List ℕ
        → SelectExprs
        → TableExprs
        → Where
        → ValExprs
        → Where
        → OrderBy
        → Limit
        → List ℕ
        → SelectStatement
    union : List ℕ → SelectStatement → SelectStatement → SelectStatement
    simple_select : List (List ℕ) → List ℕ → SelectExprs → SelectStatement

-- A record outside the block, as records do not recurse.
pub record Select : Type 0 where
  pub comments : List (List ℕ)
  pub distinct : List ℕ
  pub select_exprs : SelectExprs
  pub from : TableExprs
  pub where_clause : Where
  pub group_by : ValExprs
  pub having : Where
  pub order_by : OrderBy
  pub limit : Limit
  pub lock : List ℕ

abbrev pub select_node : Select → SelectStatement
select_node s =
    select s.comments s.distinct s.select_exprs s.from s.where_clause s.group_by s.having s.order_by
      s.limit s.lock

pub record UpdateExpr : Type 0 where
  pub name : ColName
  pub expr : ValExpr

-- A row is a tuple or a subquery.
pub data RowTuple : Type 0 where
  row_tuple : ValExprs → RowTuple
  row_subquery : SelectStatement → RowTuple

pub data InsertRows : Type 0 where
  select_rows : SelectStatement → InsertRows
  value_rows : List RowTuple → InsertRows

-- `Insert` and `Replace` have the same fields. `on_dup` is `none` where it is nil.
pub record Insert : Type 0 where
  pub comments : List (List ℕ)
  pub table : TableName
  pub columns : SelectExprs
  pub rows : InsertRows
  pub on_dup : Option (List UpdateExpr)

pub record Update : Type 0 where
  pub comments : List (List ℕ)
  pub table : TableName
  pub exprs : List UpdateExpr
  pub where_clause : Where
  pub order_by : OrderBy
  pub limit : Limit

pub record Delete : Type 0 where
  pub comments : List (List ℕ)
  pub table : TableName
  pub where_clause : Where
  pub order_by : OrderBy
  pub limit : Limit

pub record SetStatement : Type 0 where
  pub comments : List (List ℕ)
  pub exprs : List UpdateExpr
  pub scope : List ℕ

pub record Ddl : Type 0 where
  pub action : List ℕ
  pub table : List ℕ
  pub new_name : List ℕ

pub data Statement : Type 0 where
  select_statement : Select → Statement
  union_statement : List ℕ → SelectStatement → SelectStatement → Statement
  insert replace : Insert → Statement
  update : Update → Statement
  delete : Delete → Statement
  set : SetStatement → Statement
  ddl : Ddl → Statement
  begin commit rollback other : Statement
