-- ===== src/Codegen.antt =====
-- scripts/dbc_codegen.py, which writes `init_generated_database` of generated_can_network.hpp, and
-- that function: the statements are generated as data, and run on a parser. A line of the DBC file
-- comes as what the two regular expressions of the script find in it.
pub mod Lines
pub mod Statements
pub mod Whitelist
pub mod Database
pub mod Unchecked
pub mod Untimed
pub mod Gateway
pub mod Bits
pub mod Values
pub mod Reading
pub mod Decoding
pub mod Display
pub mod Extended
use Prim.Native.String.{String}
use can_from_scratch.Prelude.{
  ℕ, suc, ◌+◌, ◌-◌, ◌*◌, ◌/◌, ◌%◌, Bool, true, false, List, [], ◌∷◌, ◌++◌, ltb, ◌==◌, if◌then◌else◌,
}
use can_from_scratch.Prelude.Int.{ℤ, pos, negsuc}
use can_from_scratch.Platform.{Platform}
use can_from_scratch.Signal.{Signal, signal}
use can_from_scratch.Parser.{CanParser, register_signal, add_to_whitelist, enable_whitelist}

-- The multiplexing mark after a signal's name: none, `M`, or `m` with a number.
pub data Mark : Type 0 where
  no_mark multiplexor : Mark
  multiplexed : ℕ → Mark

-- The groups of a match of `sg_regex` that the script uses; the factor and the offset stand for the
-- values of the literals that are copied into the generated file.
pub record SignalMatch (p : Platform) : Type 0 where
  pub name : String
  pub mark : Mark
  pub start_bit : ℕ
  pub length : ℕ
  pub byte_order : ℕ
  pub minus : Bool
  pub factor : p.Double
  pub offset : p.Double

-- A line of the file: a match of `bo_regex`, one of `sg_regex`, or neither.
pub data Line (p : Platform) : Type 0 where
  bo : (id : ℕ) (name : String) → Line p
  sg : SignalMatch p → Line p
  other : Line p

pub record DbcSignal (p : Platform) : Type 0 where
  pub name : String
  pub is_multiplexor : Bool
  pub is_multiplexed : Bool
  pub mux_value : ℤ
  pub start_bit : ℕ
  pub length : ℕ
  pub is_be : Bool
  pub is_signed : Bool
  pub factor : p.Double
  pub offset : p.Double

pub record DbcMessage (p : Platform) : Type 0 where
  pub id : ℕ
  pub name : String
  pub signals : List (DbcSignal p)

-- A statement of the generated function.
pub data Statement (p : Platform) : Type 0 where
  enable : Bool → Statement p
  allow : (id : ℕ) → Statement p
  register :
      (id : ℕ) (name : String) (start len : ℕ) (be sign : Bool) (factor offset : p.Double)
      (is_multiplexor is_multiplexed : Bool) (mux_value : ℤ)
      → Statement p

-- `byte_num * 8 + (7 - bit_in_byte)` for a big-endian signal
abbrev pub final_start_bit : Bool → ℕ → ℕ
final_start_bit be dbc_start_bit =
    if be then dbc_start_bit / 8 * 8 + (7 - dbc_start_bit % 8) else dbc_start_bit

-- `sorted(unique_ids)`, one identifier at a time
abbrev pub insert_sorted : ℕ → List ℕ → List ℕ
insert_sorted id [] = id ∷ []
insert_sorted id (x ∷ rest) =
    let later = insert_sorted id rest in
    if ltb id x then id ∷ x ∷ rest else if id == x then x ∷ rest else x ∷ later

abbrev pub is_multiplexor_mark : Mark → Bool
is_multiplexor_mark Mark.multiplexor = true
is_multiplexor_mark _ = false

abbrev pub is_multiplexed_mark : Mark → Bool
is_multiplexed_mark (Mark.multiplexed n) = true
is_multiplexed_mark _ = false

abbrev pub mark_value : Mark → ℤ
mark_value (Mark.multiplexed n) = pos n
mark_value _ = negsuc 0

module _ (p : Platform) where
  -- The entry that the script makes for a match.
  abbrev pub entry : SignalMatch p → DbcSignal p
  entry x = record {
    name = x.name;
    is_multiplexor = is_multiplexor_mark x.mark;
    is_multiplexed = is_multiplexed_mark x.mark;
    mux_value = mark_value x.mark;
    start_bit = x.start_bit;
    length = x.length;
    is_be = x.byte_order == 0;
    is_signed = x.minus;
    factor = x.factor;
    offset = x.offset;
  }

  -- `current_msg['signals'].append(...)`: `current_msg` is the last message, or `None`.
  unfoldable pub add_to_current : List (DbcMessage p) → DbcSignal p → List (DbcMessage p)
  add_to_current [] x = []
  add_to_current (m ∷ []) x = record m { signals = m.signals ++ x ∷ [] } ∷ []
  add_to_current (m ∷ n ∷ rest) x = m ∷ add_to_current (n ∷ rest) x

  unfoldable pub scan : List (DbcMessage p) → List (Line p) → List (DbcMessage p)
  unfolding add_to_current
  scan messages [] = messages
  scan messages (Line.bo id name ∷ rest) =
      scan (messages ++ record { id = id; name = name; signals = [] } ∷ []) rest
  scan messages (Line.sg x ∷ rest) = scan (add_to_current messages (entry x)) rest
  scan messages (Line.other ∷ rest) = scan messages rest

  unfoldable pub unique_ids : List (DbcMessage p) → List ℕ
  unique_ids [] = []
  unique_ids (m ∷ rest) = insert_sorted m.id (unique_ids rest)

  unfoldable pub allow_all : List ℕ → List (Statement p)
  allow_all [] = []
  allow_all (id ∷ rest) = Statement.allow id ∷ allow_all rest

  unfoldable pub register_all : ℕ → List (DbcSignal p) → List (Statement p)
  register_all id [] = []
  register_all id (x ∷ rest) =
      Statement.register id x.name (final_start_bit x.is_be x.start_bit) x.length x.is_be
        x.is_signed x.factor x.offset x.is_multiplexor x.is_multiplexed x.mux_value
      ∷ register_all id rest

  unfoldable pub register_messages : List (DbcMessage p) → List (Statement p)
  unfolding register_all
  register_messages [] = []
  register_messages (m ∷ rest) = register_all m.id m.signals ++ register_messages rest

  -- The body of `init_generated_database`.
  unfoldable pub generate : List (DbcMessage p) → List (Statement p)
  unfolding unique_ids allow_all register_messages
  generate messages =
      Statement.enable true ∷ (allow_all (unique_ids messages) ++ register_messages messages)

  -- A statement, with what the clock reads where a signal is constructed; its time-out is the
  -- default of the header, 0.
  unfoldable pub execute : CanParser p → Statement p → p.Time → CanParser p
  execute s (Statement.enable on) now = enable_whitelist p s on
  execute s (Statement.allow id) now = add_to_whitelist p s id
  execute s (Statement.register id name start len be sign factor offset mux muxed value) now =
      register_signal p s id
        (signal p name (pos start) (pos len) be sign factor offset mux muxed value 0 now)

  unfoldable pub execute_all : CanParser p → List (Statement p) → (ℕ → p.Time) → ℕ → CanParser p
  unfolding execute
  execute_all s [] time i = s
  execute_all s (x ∷ rest) time i = execute_all (execute s x (time i)) rest time (i + 1)

  unfoldable pub init_generated_database : CanParser p → List (Line p) → (ℕ → p.Time) → CanParser p
  unfolding scan generate execute_all
  init_generated_database s lines time = execute_all s (generate (scan [] lines)) time 0
