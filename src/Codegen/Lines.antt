-- ===== src/Codegen/Lines.antt =====
-- What `scan` finds in the lines of a DBC file.
use mathlib.Core.List.{append_assoc, append-nil}
use Prim.Native.String.{String}
use can_from_scratch.Prelude.{
  ℕ, ◌≡◌, refl, ap, ap₂, sym, ◌∙◌, Bool, true, false, ◌||◌, List, [], ◌∷◌, ◌++◌, ◌==◌,
  if◌then◌else◌, arith,
}
use can_from_scratch.Platform.{Platform}
use can_from_scratch.Registry.{contains}
use can_from_scratch.Codegen.{
  Line, DbcSignal, DbcMessage, entry, add_to_current, insert_sorted, scan, unique_ids,
}
use can_from_scratch.Codegen.Statements.{signals_under}

module _ (p : Platform) where
  -- The entries of the signals that stand under a message with the identifier; `under` tells
  -- whether the message before the first line has it.
  abbrev pub signals_of : (id : ℕ) (under : Bool) → List (Line p) → List (DbcSignal p)
  signals_of id under [] = []
  signals_of id under (Line.bo own name ∷ rest) = signals_of id (own == id) rest
  signals_of id under (Line.sg x ∷ rest) =
      (if under then entry p x ∷ [] else []) ++ signals_of id under rest
  signals_of id under (Line.other ∷ rest) = signals_of id under rest

  -- The file declares a message with the identifier.
  abbrev pub is_declared : ℕ → List (Line p) → Bool
  is_declared id [] = false
  is_declared id (Line.bo own name ∷ rest) = own == id || is_declared id rest
  is_declared id (Line.sg x ∷ rest) = is_declared id rest
  is_declared id (Line.other ∷ rest) = is_declared id rest

  -- The last message has the identifier.
  abbrev current_is : ℕ → List (DbcMessage p) → Bool
  current_is id [] = false
  current_is id (m ∷ []) = m.id == id
  current_is id (m ∷ n ∷ rest) = current_is id (n ∷ rest)

  current_is-append :
      (id : ℕ) (ms : List (DbcMessage p)) (m : DbcMessage p)
      → current_is id (ms ++ m ∷ []) ≡ (m.id == id)
  current_is-append id [] m = refl
  current_is-append id (a ∷ []) m = refl
  current_is-append id (a ∷ b ∷ rest) m = current_is-append id (b ∷ rest) m

  nothing_chosen : (b : Bool) → ◌≡◌ {A = List (DbcSignal p)} ((if b then [] else []) ++ []) []
  nothing_chosen true = refl
  nothing_chosen false = refl

  chosen_last :
      (b : Bool) (xs : List (DbcSignal p)) (x : DbcSignal p)
      → (if b then xs ++ x ∷ [] else []) ++ []
        ≡ ((if b then xs else []) ++ []) ++ (if b then x ∷ [] else [])
  chosen_last true xs x = simp (append-nil {A = DbcSignal p})
  chosen_last false xs x = refl

  signals_under-append :
      (id : ℕ) (ms : List (DbcMessage p)) (own : ℕ) (name : String)
      → signals_under p id (ms ++ record { id = own; name = name; signals = [] } ∷ [])
        ≡ signals_under p id ms
  signals_under-append id [] own name = nothing_chosen (own == id)
  signals_under-append id (m ∷ ms) own name =
      ap (λ r. (if m.id == id then m.signals else []) ++ r) (signals_under-append id ms own name)

  current_is-add :
      (id : ℕ) (ms : List (DbcMessage p)) (x : DbcSignal p)
      → current_is id (add_to_current p ms x) ≡ current_is id ms
  unfolding add_to_current
  current_is-add id [] x = refl
  current_is-add id (m ∷ []) x = refl
  current_is-add id (m ∷ n ∷ []) x = refl
  current_is-add id (m ∷ n ∷ o ∷ rest) x = current_is-add id (n ∷ o ∷ rest) x

  signals_under-add :
      (id : ℕ) (ms : List (DbcMessage p)) (x : DbcSignal p)
      → signals_under p id (add_to_current p ms x)
        ≡ signals_under p id ms ++ (if current_is id ms then x ∷ [] else [])
  unfolding add_to_current
  signals_under-add id [] x = refl
  signals_under-add id (m ∷ []) x = chosen_last (m.id == id) m.signals x
  signals_under-add id (m ∷ n ∷ rest) x =
      ap (λ r. (if m.id == id then m.signals else []) ++ r) (signals_under-add id (n ∷ rest) x)
      ∙ sym (append_assoc (if m.id == id then m.signals else []) _ _)

  pub scan-signals_under :
      (id : ℕ) (ms : List (DbcMessage p)) (lines : List (Line p))
      → signals_under p id (scan p ms lines)
        ≡ signals_under p id ms ++ signals_of id (current_is id ms) lines
  unfolding scan
  scan-signals_under id ms [] = sym (append-nil _)
  scan-signals_under id ms (Line.bo own name ∷ rest) =
      scan-signals_under id (ms ++ record { id = own; name = name; signals = [] } ∷ []) rest
      ∙ ap₂ (λ front under. front ++ signals_of id under rest) (signals_under-append id ms own name)
          (current_is-append id ms _)
  scan-signals_under id ms (Line.sg x ∷ rest) =
      scan-signals_under id (add_to_current p ms (entry p x)) rest
      ∙ ap₂ (λ front under. front ++ signals_of id under rest) (signals_under-add id ms (entry p x))
          (current_is-add id ms (entry p x))
      ∙ append_assoc (signals_under p id ms) _ _
  scan-signals_under id ms (Line.other ∷ rest) = scan-signals_under id ms rest

  contains-insert_sorted :
      (id own : ℕ) (ids : List ℕ)
      → contains id (insert_sorted own ids) ≡ (own == id || contains id ids)
  unfolding contains
  contains-insert_sorted id own [] = refl
  contains-insert_sorted id own (x ∷ rest) = ground (arith, contains-insert_sorted id own rest)

  contains-unique_ids :
      (id : ℕ) (ms : List (DbcMessage p)) (m : DbcMessage p)
      → contains id (unique_ids p (ms ++ m ∷ [])) ≡ (m.id == id || contains id (unique_ids p ms))
  unfolding unique_ids
  contains-unique_ids id [] m = contains-insert_sorted id m.id []
  contains-unique_ids id (n ∷ ms) m = ground (
    arith,
    contains-insert_sorted id n.id (unique_ids p (ms ++ m ∷ [])),
    contains-insert_sorted id n.id (unique_ids p ms),
    contains-unique_ids id ms m,
  )

  unique_ids-add :
      (ms : List (DbcMessage p)) (x : DbcSignal p)
      → unique_ids p (add_to_current p ms x) ≡ unique_ids p ms
  unfolding unique_ids add_to_current
  unique_ids-add [] x = refl
  unique_ids-add (m ∷ []) x = refl
  unique_ids-add (m ∷ n ∷ rest) x = ap (insert_sorted m.id) (unique_ids-add (n ∷ rest) x)

  pub scan-unique_ids :
      (id : ℕ) (ms : List (DbcMessage p)) (lines : List (Line p))
      → contains id (unique_ids p (scan p ms lines))
        ≡ (is_declared id lines || contains id (unique_ids p ms))
  unfolding scan
  scan-unique_ids id ms [] = refl
  scan-unique_ids id ms (Line.bo own name ∷ rest) = ground (
    arith,
    scan-unique_ids id (ms ++ record { id = own; name = name; signals = [] } ∷ []) rest,
    contains-unique_ids id ms (record { id = own; name = name; signals = [] }),
  )
  scan-unique_ids id ms (Line.sg x ∷ rest) =
      scan-unique_ids id (add_to_current p ms (entry p x)) rest
      ∙ ap (λ ids. is_declared id rest || contains id ids) (unique_ids-add ms (entry p x))
  scan-unique_ids id ms (Line.other ∷ rest) = scan-unique_ids id ms rest
