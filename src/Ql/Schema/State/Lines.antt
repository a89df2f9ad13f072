-- ===== src/Ql/Schema/State/Lines.antt =====
-- One line of schema.state is read back.
use epochs.Common.{
  ℕ, ◌+◌, [], ◌∷◌, ◌++◌, false, some, ◌≡◌, refl, sym, ap, ◌∙◌, subst, ◌==◌, bytes_eq,
}
use epochs.Assoc.Laws.{get-sorted_insert, sorted_insert_again}
use epochs.Assoc.{get}
use epochs.Ql.Chars.{Chars, is_whitespace, within}
use epochs.Ql.Error.{ok, ◌>>=◌}
use epochs.Ql.Schema.Lock.ReadBack.{has_newline, lines_from-newline}
use epochs.Ql.Schema.Lock.{lines_from}
use epochs.Ql.Schema.Registry.{SchemaRegistry, CollectionSchema, FieldDef, IndexDef, index_name_for}
use epochs.Ql.Schema.State.Words.{Word, words_from-last, words_from-word, parse_line-words}
use epochs.Ql.Schema.State.{
  State, add_word, words_from, before_dot, put, no_fields, directive, collection_line, key_line,
  index_line, index_of, entry_or_insert, or_fault, first_of, behind, is_word_at, parse_lines,
  type_text, key_text, index_text,
}
use epochs.Text.{codes}
use epochs.Ql.Schema.State.Texts.{
  has_dot, has_newline-append, blank-newline, Word-blank, Word-index_name_for, before_dot-index,
  type_text-Word, parse_type-type_text,
}

-- One line of the file, and the lines behind it.
parse_lines-line :
    (line : ℕ) (c : ℕ) (rest text : Chars) (s s' : State)
    → has_newline (c ∷ rest) ≡ false
    → (is_whitespace c ≡ false) × ((c == b'#') ≡ false) × ((c == b'\r') ≡ false)
    → directive line (words_from [] (c ∷ rest)) s ≡ ok s'
    → parse_lines line (lines_from [] ((c ∷ rest) ++ (b'\n' ∷ text))) s
      ≡ parse_lines (line + 1) (lines_from [] text) s'
parse_lines-line line c rest text s s' one (no_blank, no_hash, no_cr) run =
    ap (λ ls. parse_lines line ls s) (lines_from-newline [] (c ∷ rest) text one)
    ∙ (unfold parse_lines in
        ap (λ r. r >>= parse_lines (line + 1) (lines_from [] text))
          (parse_line-words line c rest s no_blank no_hash no_cr ∙ run))

-- The parser behind a line of the collection `k`.
abbrev pub standing : Chars → CollectionSchema → SchemaRegistry → State
standing k c registry = record { registry = put k c registry; current = some k }

put_again :
    (k : Chars) (c d : CollectionSchema) (registry : SchemaRegistry)
    → put k d (put k c registry) ≡ put k d registry
unfolding put
put_again k c d registry =
    ap (λ m. record { collections = m }) (sorted_insert_again k c d registry.collections)

get-put :
    (k : Chars) (c : CollectionSchema) (registry : SchemaRegistry)
    → get k (put k c registry).collections ≡ some c
unfolding put
get-put k c registry = get-sorted_insert k c registry.collections

key_text-words :
    (f : FieldDef)
    → Word f.path
    → words_from [] (key_text f) ≡ codes "KEY" ∷ f.path ∷ type_text f.field_type ∷ []
unfolding key_text words_from add_word is_whitespace within
key_text-words f w =
    ap (λ ws. codes "KEY" ∷ ws)
      (words_from-word f.path (type_text f.field_type) w
        ∙ ap (λ ws. f.path ∷ ws)
            (words_from-last (type_text f.field_type) (type_text-Word f.field_type)))

directive-key :
    (line : ℕ) (f : FieldDef) (k : Chars) (c : CollectionSchema) (registry : SchemaRegistry)
    → directive line (codes "KEY" ∷ f.path ∷ type_text f.field_type ∷ []) (standing k c registry)
      ≡ ok (standing k (record c { primary_key = c.primary_key ++ (f ∷ []) }) registry)
unfolding directive key_line or_fault first_of behind bytes_eq
directive-key line f k c registry =
    rw (parse_type-type_text f.field_type, get-put k c registry)
      (ap (λ r. ok (record { registry = r; current = some k })) (put_again k c _ registry))

entry_or_insert-put :
    (k : Chars) (c : CollectionSchema) (registry : SchemaRegistry)
    → entry_or_insert k (put k c registry) ≡ c
unfolding entry_or_insert
entry_or_insert-put k c registry = rw (entry_or_insert, get-put k c registry) refl

index_text-words :
    (i : IndexDef)
    → Word i.name
    → Word i.path
    → words_from [] (index_text i)
      ≡ codes "INDEX" ∷ i.name ∷ codes "PATH" ∷ i.path ∷ codes "TYPE" ∷ type_text i.field_type ∷ []
unfolding index_text words_from add_word is_whitespace within
index_text-words i w w' =
    ap (λ ws. codes "INDEX" ∷ ws)
      (words_from-word i.name
          (codes "PATH " ++ (i.path ++ (codes " TYPE " ++ type_text i.field_type))) w
        ∙ ap (λ ws. i.name ∷ codes "PATH" ∷ ws)
            (words_from-word i.path (codes "TYPE " ++ type_text i.field_type) w'
              ∙ ap (λ ws. i.path ∷ codes "TYPE" ∷ ws)
                  (words_from-last (type_text i.field_type) (type_text-Word i.field_type))))

directive-index :
    (line : ℕ) (i : IndexDef) (k : Chars) (c : CollectionSchema) (registry : SchemaRegistry)
    → before_dot i.name ≡ k
    → directive line
        (codes "INDEX"
          ∷ i.name
          ∷ codes "PATH"
          ∷ i.path
          ∷ codes "TYPE"
          ∷ type_text i.field_type
          ∷ [])
        (standing k c registry)
      ≡ ok (standing k (record c { indexes = c.indexes ++ (i ∷ []) }) registry)
unfolding directive index_line index_of or_fault first_of behind is_word_at bytes_eq
directive-index line i k c registry e =
    rw (parse_type-type_text i.field_type, e, entry_or_insert-put k c registry)
      (ap (λ r. ok (record { registry = r; current = some k })) (put_again k c _ registry))

pub key_line-read :
    (line : ℕ) (f : FieldDef) (k : Chars) (c : CollectionSchema) (registry : SchemaRegistry)
    (text : Chars)
    → Word f.path
    → parse_lines line (lines_from [] (key_text f ++ (b'\n' ∷ text))) (standing k c registry)
      ≡ parse_lines
          (line + 1)
          (lines_from [] text)
          (standing k (record c { primary_key = c.primary_key ++ (f ∷ []) }) registry)
unfolding key_text is_whitespace within
key_line-read line f k c registry text w =
    let type_plain =
      blank-newline (type_text f.field_type) (Word-blank _ (type_text-Word f.field_type)) in
    let one : has_newline (key_text f) ≡ false =
      unfold key_text has_newline in
      has_newline-append f.path (b' ' ∷ type_text f.field_type)
        (blank-newline f.path (Word-blank f.path w)) type_plain in
    let run =
      ap (λ ws. directive line ws (standing k c registry)) (key_text-words f w)
      ∙ directive-key line f k c registry in
    parse_lines-line line b'K' (codes "EY " ++ (f.path ++ (b' ' ∷ type_text f.field_type))) text
      (standing k c registry) _ one (refl, refl, refl) run

pub index_line-read :
    (line : ℕ) (i : IndexDef) (k : Chars) (c : CollectionSchema) (registry : SchemaRegistry)
    (text : Chars)
    → Word k
    → has_dot k ≡ false
    → Word i.path × (i.name ≡ index_name_for k i.path)
    → parse_lines line (lines_from [] (index_text i ++ (b'\n' ∷ text))) (standing k c registry)
      ≡ parse_lines
          (line + 1)
          (lines_from [] text)
          (standing k (record c { indexes = c.indexes ++ (i ∷ []) }) registry)
unfolding index_text is_whitespace within
index_line-read line i k c registry text word no_dot (w, named) =
    let w' : Word i.name = subst Word (sym named) (Word-index_name_for k i.path word w) in
    let own : before_dot i.name ≡ k = ap before_dot named ∙ before_dot-index k i.path no_dot in
    let type_plain =
      blank-newline (type_text i.field_type) (Word-blank _ (type_text-Word i.field_type)) in
    let path_plain = blank-newline i.path (Word-blank i.path w) in
    let name_plain = blank-newline i.name (Word-blank i.name w') in
    let one : has_newline (index_text i) ≡ false =
      unfold index_text has_newline in
      has_newline-append i.name _ name_plain (
        has_newline-append i.path (codes " TYPE " ++ type_text i.field_type) path_plain
          type_plain) in
    let run =
      ap (λ ws. directive line ws (standing k c registry)) (index_text-words i w' w)
      ∙ directive-index line i k c registry own in
    parse_lines-line line b'I'
      (codes "NDEX "
        ++ (i.name ++ (codes " PATH " ++ (i.path ++ (codes " TYPE " ++ type_text i.field_type)))))
      text (standing k c registry) _ one (refl, refl, refl) run

pub collection_line-read :
    (line : ℕ) (k : Chars) (s : State) (text : Chars)
    → Word k
    → parse_lines line (lines_from [] ((codes "COLLECTION " ++ k) ++ (b'\n' ∷ text))) s
      ≡ parse_lines (line + 1) (lines_from [] text) (standing k (no_fields k) s.registry)
unfolding is_whitespace within
collection_line-read line k s text w =
    let one : has_newline (codes "COLLECTION " ++ k) ≡ false =
      unfold has_newline in blank-newline k (Word-blank k w) in
    let words : words_from [] (codes "COLLECTION " ++ k) ≡ codes "COLLECTION" ∷ k ∷ [] =
      unfold words_from add_word in ap (λ ws. codes "COLLECTION" ∷ ws) (words_from-last k w) in
    let done : directive line (codes "COLLECTION" ∷ k ∷ []) s
        ≡ ok (standing k (no_fields k) s.registry) =
      unfold directive collection_line or_fault first_of bytes_eq in refl in
    parse_lines-line line b'C' (codes "OLLECTION " ++ k) text s _ one (refl, refl, refl)
      (ap (λ ws. directive line ws s) words ∙ done)
