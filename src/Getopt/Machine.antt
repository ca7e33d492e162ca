-- ===== src/Getopt/Machine.antt =====
-- What the calls of `getopt` promise, without memory: a view of the command line that each call moves
-- on, and what the call answers.
use nolibc.Prelude.{ℕ, Bool, not, ◌&&◌, Option, none, some, List, [], ◌∷◌, ◌==◌, if◌then◌else◌}
use nolibc.Prelude.Words.{char32}
use nolibc.Getopt.{Message, silent, unrecognized, requires, minus_one}

-- what an option string says of a character
pub data Kind : Type 0 where
  unknown : Kind
  flag : Kind
  required : Kind
  optional : Kind

abbrev pub colons : List ℕ → Kind
colons [] = flag
colons (d ∷ []) = if d == b':' then required else flag
colons (d ∷ e ∷ s) = if d == b':' then (if e == b':' then optional else required) else flag

abbrev pub kind_of : ℕ → List ℕ → Kind
kind_of c [] = unknown
kind_of c (d ∷ s) = if d == c then (if c == b':' then unknown else colons s) else kind_of c s

-- the characters of the current word that are still to be read, and the words behind it; or past the
-- end, since the last option misses its argument
pub data View : Type 0 where
  before : List ℕ → List (List ℕ) → View
  past : View

-- what becomes of `optarg`
pub data Argument : Type 0 where
  unchanged : Argument
  absent : Argument
  value : List ℕ → Argument
  missing : Argument

pub record Answer : Type 0 where
  pub view : View
  pub result : ℕ
  pub argument : Argument
  pub option : Option ℕ
  pub message : Message

-- the options are over
abbrev pub done : View → Answer
done v = record {
  view = v;
  result = minus_one;
  argument = unchanged;
  option = none;
  message = silent;
}

-- how errors are reported: whether the option string begins with a colon, and whether messages are on
module _ (colon noisy : Bool) where
  abbrev say : Message → Message
  say m = if not colon && noisy then m else silent

  -- an option with its argument
  abbrev gives : ℕ → Argument → List (List ℕ) → Answer
  gives c a ws = record {
    view = before [] ws;
    result = char32 c;
    argument = a;
    option = none;
    message = silent;
  }

  -- the option character `c`, with `cs` behind it in its word and the words `ws` behind that
  abbrev pub act : Kind → ℕ → List ℕ → List (List ℕ) → Answer
  act unknown c cs ws = record {
    view = before cs ws;
    result = b'?';
    argument = unchanged;
    option = some (char32 c);
    message = say (unrecognized c);
  }
  act flag c cs ws = record {
    view = before cs ws;
    result = char32 c;
    argument = unchanged;
    option = none;
    message = silent;
  }
  act required c (d ∷ cs) ws = gives c (value (d ∷ cs)) ws
  act required c [] (w ∷ ws) = gives c (value w) ws
  act required c [] [] = record {
    view = past;
    result = if colon then b':' else b'?';
    argument = missing;
    option = some (char32 c);
    message = say (requires c);
  }
  act optional c (d ∷ cs) ws = gives c (value (d ∷ cs)) ws
  act optional c [] ws = gives c absent ws

  module _ (in_order : Bool) (opts : List ℕ) where
    -- a word that is no option
    abbrev pub operand : List ℕ → List (List ℕ) → Answer
    operand w ws =
        if in_order
        then record {
          view = before [] ws;
          result = 1;
          argument = value w;
          option = none;
          message = silent;
        }
        else done (before [] (w ∷ ws))

    abbrev pub front : List ℕ → List (List ℕ) → Answer
    front [] ws = operand [] ws
    front (a ∷ []) ws = if a == b'-' then done (before [] ((a ∷ []) ∷ ws)) else operand (a ∷ []) ws
    front (a ∷ c ∷ []) ws =
        if a == b'-'
        then (if c == b'-' then done (before [] ws) else act (kind_of c opts) c [] ws)
        else operand (a ∷ c ∷ []) ws
    front (a ∷ c ∷ d ∷ cs) ws =
        if a == b'-' then act (kind_of c opts) c (d ∷ cs) ws else operand (a ∷ c ∷ d ∷ cs) ws

    -- one call
    abbrev pub next_answer : View → Answer
    next_answer (before (c ∷ cs) ws) = act (kind_of c opts) c cs ws
    next_answer (before [] []) = done (before [] [])
    next_answer (before [] (w ∷ ws)) = front w ws
    next_answer past = done past
