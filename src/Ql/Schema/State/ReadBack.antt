-- ===== src/Ql/Schema/State/ReadBack.antt =====
-- A schema in schema.state is read back.
use epochs.Common.{
  ℕ, ◌+◌, List, [], ◌∷◌, ◌++◌, true, false, none, ◌≡◌, refl, sym, ap, ◌∙◌, All, append-nil,
  append_assoc,
}
use epochs.Assoc.Laws.{sorted_insert_last}
use epochs.Assoc.{bytes_lt, IsAscending}
use epochs.Ql.Chars.{Chars, is_whitespace, within}
use epochs.Ql.Error.{ok, ◌>>=◌}
use epochs.Ql.Schema.Lock.ReadBack.{has_newline, lines_from-newline}
use epochs.Ql.Schema.Lock.{
  lines_from, strip_cr, trim, trim_start, trim_end, keep_trimmed, is_passed_over,
}
use epochs.Ql.Schema.Registry.{
  SchemaRegistry, CollectionSchema, FieldDef, IndexDef, index_name_for, new_registry,
}
use epochs.Ql.Schema.State.Words.{Word}
use epochs.Ql.Schema.State.{
  State, put, no_fields, parse_line, parse_lines, parse, key_text, index_text, key_texts,
  index_texts, collection_texts, to_state_file, state_comment,
}
use epochs.Text.{codes}
use epochs.Ql.Schema.State.Texts.{has_dot, Storable}
use epochs.Ql.Schema.State.Lines.{standing, key_line-read, index_line-read, collection_line-read}

-- The lines of the fields, behind which the rest of the text is read.
key_texts-read :
    (line : ℕ) (k : Chars) (c : CollectionSchema) (registry : SchemaRegistry) (keys : List FieldDef)
    (text : Chars)
    → All (λ f. Word f.path) keys
    → (l : ℕ) × (parse_lines line (lines_from [] (key_texts keys ++ text)) (standing k c registry)
        ≡ parse_lines l
            (lines_from [] text)
            (standing k (record c { primary_key = c.primary_key ++ keys }) registry))
unfolding key_texts
key_texts-read line k c registry [] text all = (
  line,
  ap
      (λ keys.
        parse_lines line (lines_from [] text)
          (standing k (record c { primary_key = keys }) registry))
      (sym (append-nil c.primary_key)),
)
key_texts-read line k c registry (f ∷ keys) text (w, all) =
    let (l, rest) =
      key_texts-read (line + 1) k (record c { primary_key = c.primary_key ++ (f ∷ []) }) registry
        keys text all in
    let shape : (key_text f ++ (b'\n' ∷ key_texts keys)) ++ text
        ≡ key_text f ++ (b'\n' ∷ (key_texts keys ++ text)) =
      append_assoc (key_text f) (b'\n' ∷ key_texts keys) text in
    let first = key_line-read line f k c registry (key_texts keys ++ text) w in
    let whole = ap (λ t. parse_lines line (lines_from [] t) (standing k c registry)) shape in
    let joined =
      ap
        (λ keys.
          parse_lines l (lines_from [] text)
            (standing k (record c { primary_key = keys }) registry))
        (append_assoc c.primary_key (f ∷ []) keys) in
    (l, whole ∙ first ∙ rest ∙ joined)

-- The lines of the indexes, behind which the rest of the text is read.
index_texts-read :
    (line : ℕ) (k : Chars) (c : CollectionSchema) (registry : SchemaRegistry)
    (indexes : List IndexDef) (text : Chars)
    → Word k
    → has_dot k ≡ false
    → All (λ i. Word i.path × (i.name ≡ index_name_for k i.path)) indexes
    → (l : ℕ) × (parse_lines line
          (lines_from [] (index_texts indexes ++ text))
          (standing k c registry)
        ≡ parse_lines l
            (lines_from [] text)
            (standing k (record c { indexes = c.indexes ++ indexes }) registry))
unfolding index_texts
index_texts-read line k c registry [] text word no_dot all = (
  line,
  ap (λ is. parse_lines line (lines_from [] text) (standing k (record c { indexes = is }) registry))
      (sym (append-nil c.indexes)),
)
index_texts-read line k c registry (i ∷ indexes) text word no_dot (w, all) =
    let (l, rest) =
      index_texts-read (line + 1) k (record c { indexes = c.indexes ++ (i ∷ []) }) registry indexes
        text word no_dot all in
    let shape = append_assoc (index_text i) (b'\n' ∷ index_texts indexes) text in
    let first = index_line-read line i k c registry (index_texts indexes ++ text) word no_dot w in
    let whole = ap (λ t. parse_lines line (lines_from [] t) (standing k c registry)) shape in
    let joined =
      ap
        (λ is. parse_lines l (lines_from [] text) (standing k (record c { indexes = is }) registry))
        (append_assoc c.indexes (i ∷ []) indexes) in
    (l, whole ∙ first ∙ rest ∙ joined)

-- The collections, put in a registry one after the other.
put_all : SchemaRegistry → List (Chars × CollectionSchema) → SchemaRegistry
put_all registry [] = registry
put_all registry ((k, c) ∷ collections) = put_all (put k c registry) collections

collection_texts-read :
    (line : ℕ) (s : State) (collections : List (Chars × CollectionSchema))
    → All Storable collections
    → (parse_lines line (lines_from [] (collection_texts collections)) s >>= λ s'. ok s'.registry)
      ≡ ok (put_all s.registry collections)
unfolding collection_texts
collection_texts-read line s [] all = unfold parse_lines lines_from put_all in refl
collection_texts-read line s ((k, c) ∷ collections) (st, all) =
    let behind_keys = index_texts c.indexes ++ collection_texts collections in
    let first = collection_line-read line k s (key_texts c.primary_key ++ behind_keys) st.word in
    let (l, keys) =
      key_texts-read (line + 1) k (no_fields k) s.registry c.primary_key behind_keys st.keys in
    let (l', indexes) =
      index_texts-read l k (record { name = k; primary_key = c.primary_key; indexes = [] })
        s.registry c.indexes (collection_texts collections) st.word st.no_dot st.indexes in
    let named =
      ap
        (λ n.
          parse_lines line
            (lines_from []
              ((codes "COLLECTION " ++ n) ++ (b'\n' ∷ (key_texts c.primary_key ++ behind_keys))))
            s)
        st.own in
    let whole = named ∙ first ∙ keys ∙ indexes in
    let named_k : CollectionSchema = record {
      name = k;
      primary_key = c.primary_key;
      indexes = c.indexes;
    } in
    let others = collection_texts-read l' (standing k named_k s.registry) collections all in
    let same : named_k ≡ c = ap (λ n. record c { name = n }) (sym st.own) in
    ap (λ r. r >>= λ s'. ok s'.registry) whole
    ∙ others
    ∙ (unfold put_all in ap (λ d. ok (put_all (put k d s.registry) collections)) same)

comment_one_line : has_newline state_comment ≡ false
unfolding has_newline
comment_one_line = refl

comment_passed : is_passed_over (trim (strip_cr state_comment)) ≡ true
unfolding is_passed_over trim trim_start trim_end keep_trimmed strip_cr is_whitespace within
comment_passed = refl

-- Collections whose names ascend come out in their order.
put_all-IsAscending :
    (done collections : List (Chars × CollectionSchema))
    → IsAscending collections
    → All (λ e. All (λ d. bytes_lt e.0 d.0 ≡ true) collections) done
    → put_all (record { collections = done }) collections
      ≡ record { collections = done ++ collections }
unfolding put_all put
put_all-IsAscending done [] up below = ap (λ m. record { collections = m }) (sym (append-nil done))
put_all-IsAscending done ((k, c) ∷ collections) (above, up) below =
    let last = sorted_insert_last k c done (firsts done below) in
    ap (λ m. put_all (record { collections = m }) collections) last
    ∙ put_all-IsAscending (done ++ ((k, c) ∷ [])) collections up (rests done below)
    ∙ ap (λ m. record { collections = m }) (append_assoc done ((k, c) ∷ []) collections)
  where
    firsts :
        (es : List (Chars × CollectionSchema))
        → All (λ e. All (λ d. bytes_lt e.0 d.0 ≡ true) ((k, c) ∷ collections)) es
        → All (λ e. bytes_lt e.0 k ≡ true) es
    firsts [] all = tt
    firsts (e ∷ es) ((here, later), all) = (here, firsts es all)

    rests :
        (es : List (Chars × CollectionSchema))
        → All (λ e. All (λ d. bytes_lt e.0 d.0 ≡ true) ((k, c) ∷ collections)) es
        → All (λ e. All (λ d. bytes_lt e.0 d.0 ≡ true) collections) (es ++ ((k, c) ∷ []))
    rests [] all = (above, tt)
    rests (e ∷ es) ((here, later), all) = (later, rests es all)

-- A schema is read from schema.state as it was written, where the names of its collections ascend,
-- as the map's do, and for each collection: it stands under its name, its name and its paths are
-- words without whitespace, its name has no dot, and its indexes have the names of their paths.
pub parse-to_state_file :
    (registry : SchemaRegistry)
    → IsAscending registry.collections
    → All Storable registry.collections
    → parse (to_state_file registry) ≡ ok registry
unfolding parse to_state_file new_registry
parse-to_state_file registry up all =
    let lines =
      lines_from-newline [] state_comment (collection_texts registry.collections)
        comment_one_line in
    let start : State = record { registry = new_registry; current = none } in
    let skipped : parse_lines 1
          (strip_cr state_comment ∷ lines_from [] (collection_texts registry.collections)) start
        ≡ parse_lines 2 (lines_from [] (collection_texts registry.collections)) start =
      unfold parse_lines parse_line in rw comment_passed refl in
    ap (λ ls. parse_lines 1 ls start >>= λ s. ok s.registry) lines
    ∙ ap (λ r. r >>= λ s. ok s.registry) skipped
    ∙ collection_texts-read 2 start registry.collections all
    ∙ ap ok (put_all-IsAscending [] registry.collections up tt)
