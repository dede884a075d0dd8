-- ===== src/Cassandra/StatementLaws.antt =====
-- The statement of `getInsertStatement` (cassandra_base_client.hpp): its text, its markers and the
-- parameters bound to them.
use store_cpp.Base.{
  ℕ, zero, suc, ◌+◌, ◌-◌, ◌≡◌, ◌≤◌, refl, ap, ◌∙◌, arith, Option, none, some, List, [], ◌∷◌, ◌++◌,
  take, drop, get_elem?, length, Str, codes, fun_ext,
}
use store_cpp.Extensions.Join.{intercalate, tail_pieces}
use store_cpp.Insert.Shape.{write_fields-intercalate, drop_step}
use store_cpp.Cassandra.Driver.{M, pure, ◌>>=◌, ◌>>◌, call, need, Driver, DriverLaws, Bound}
use store_cpp.Cassandra.Balance.{
  Grows, Grows-bind, Grows-then, Grows-pure, Grows-stuck, Grows-need, Grows-made, Grows-step,
}
use store_cpp.Cassandra.Statements.{
  Param, bound_of, write_markers, surround_markers, marked_text, bind_option, bind_cass_parameter,
  apply_binding, bind_loop, get_insert_statement,
}

-- As many question marks as there are names.
abbrev pub markers : List Str → List Str
markers [] = []
markers (f ∷ fs) = codes "?" ∷ markers fs

write_markers-intercalate :
    (f : Str) (fs : List Str)
    → write_markers (length fs) ≡ intercalate (codes ",") (markers (f ∷ fs))
unfolding write_markers intercalate tail_pieces codes
write_markers-intercalate f [] = refl
write_markers-intercalate f (g ∷ fs) = ap (λ r. codes "?," ++ r) (write_markers-intercalate g fs)

-- The text for a list of names that is not empty.
abbrev pub insert_sql : Str → List Str → Str
insert_sql table_name fields =
    codes "insert into "
    ++ table_name
    ++ codes " ("
    ++ intercalate (codes ",") fields
    ++ codes ") values "
    ++ (10 ∷ codes "(")
    ++ intercalate (codes ",") (markers fields)
    ++ codes ");"

marked_text-insert_sql :
    (table_name f : Str) (fs : List Str)
    → marked_text table_name (f ∷ fs) ≡ some (insert_sql table_name (f ∷ fs))
unfolding marked_text surround_markers
marked_text-insert_sql table_name f fs =
    let rounds : length (f ∷ fs) - 1 ≡ length fs = omega arith in
    rw (write_fields-intercalate (f ∷ fs) (λ e. cc), rounds, write_markers-intercalate f fs) refl

module _ (D : Driver) where
  open D use {World, Statement, statement_new}

  -- Each parameter bound at its position, counted from `i`.
  abbrev pub bind_each : Statement → List Param → ℕ → M World (Unit {0})
  bind_each s [] i = pure tt
  bind_each s (p ∷ ps) i = bind_cass_parameter D s i p >> bind_each s ps (suc i)

  bind_loop-bind_each :
      (s : Statement) (params : List Param) (n i : ℕ)
      → n + i ≤ length params
      → bind_loop D s params n i ≡ bind_each s (take n (drop i params)) i
  unfolding bind_loop apply_binding
  bind_loop-bind_each s params zero i h = refl
  bind_loop-bind_each s params (suc n) i h =
      let (v, e, d) = drop_step params i (omega arith) in
      rw (e, d)
        (ap (λ k. bind_cass_parameter D s i v >> k)
          (bind_loop-bind_each s params n (suc i) (omega arith)))

  -- With a name, and as many parameters as names, the statement has the names and as many markers, and
  -- the parameters are bound to them in order; parameters that are left over are ignored.
  pub get_insert_statement-bind_each :
      (table_name f : Str) (fs : List Str) (params : List Param)
      → length (f ∷ fs) ≤ length params
      → get_insert_statement D table_name (f ∷ fs) params ≡ (do
        statement ← call (statement_new (insert_sql table_name (f ∷ fs)) (length (f ∷ fs)))
        bind_each statement (take (length (f ∷ fs)) params) 0
        pure statement)
  unfolding get_insert_statement need ◌>>=◌
  get_insert_statement-bind_each table_name f fs params h =
      let tail : List Param → Str → M World Statement = λ ps sql.
        call (statement_new sql (length (f ∷ fs))) >>= λ s.
        bind_loop D s ps (length (f ∷ fs)) 0 >> pure s in
      ap (λ o. need o >>= tail params) (marked_text-insert_sql table_name f fs)
      ∙ ap
          (λ (k : Statement → M World (Unit {0})).
            call (statement_new (insert_sql table_name (f ∷ fs)) (length (f ∷ fs))) >>= λ s.
            k s >> pure s)
          (fun_ext λ s. bind_loop-bind_each s params (length (f ∷ fs)) 0 (omega (arith, h)))

module _ (D : Driver) (laws : DriverLaws D) where
  open D use {World, Statement, statement_new}
  open laws use {live}

  bind_option-Grows :
      {a : ℕ} (s : Statement) (i : ℕ) (o : Option Bound) → Grows live a (bind_option D s i o) a
  unfolding bind_option
  bind_option-Grows s i none = Grows-pure _
  bind_option-Grows s i (some b) = Grows-step _ (laws.kept_bind s i b)

  apply_binding-Grows :
      {a : ℕ} (s : Statement) (i : ℕ) (o : Option Param) → Grows live a (apply_binding D s i o) a
  unfolding apply_binding bind_cass_parameter
  apply_binding-Grows s i none = Grows-stuck
  apply_binding-Grows s i (some p) = bind_option-Grows s i (bound_of p)

  bind_loop-Grows :
      {a : ℕ} (s : Statement) (params : List Param) (n i : ℕ)
      → Grows live a (bind_loop D s params n i) a
  unfolding bind_loop
  bind_loop-Grows s params zero i = Grows-pure _
  bind_loop-Grows s params (suc n) i =
      Grows-then (apply_binding-Grows s i (get_elem? params i)) (bind_loop-Grows s params n (suc i))

  -- It makes one object of the driver, the statement that it returns.
  pub get_insert_statement-Grows :
      {a : ℕ} (table_name : Str) (fields : List Str) (params : List Param)
      → Grows live a (get_insert_statement D table_name fields params) (suc a)
  unfolding get_insert_statement
  get_insert_statement-Grows table_name fields params =
      Grows-bind (Grows-need (marked_text table_name fields)) λ sql.
        Grows-bind (Grows-made _ (laws.made_statement sql (length fields)))
          λ s. Grows-then (bind_loop-Grows s params (length fields) 0) (Grows-pure _)
