-- ===== src/Signal.antt =====
-- sapl_base/src/sapl_base/pep/signal.py and pep/provider.py: signal kinds, and the handlers that a
-- provider offers for a constraint. pep/enforce.py and pep/streaming/pipeline.py: the signals.
use sapl_python.Prelude.{String, Bool, true, false, List, str_eq, any}
use sapl_python.Python.Value.{ℤ, Value, tuple, cons, nil}
use sapl_python.Python.Exception.{Exc, Obj, plain, exception, absent}
use sapl_python.Python.Action.{Action, Result}

pub record SignalKind : Type 0 where
  pub name : String
  pub data_carrying : Bool

-- `__eq__` and `__hash__` look at the name alone.
abbrev pub kind_eq : SignalKind → SignalKind → Bool
kind_eq a b = str_eq a.name b.name

-- `kind in supported`
abbrev pub supports : List SignalKind → SignalKind → Bool
supports supported kind = any (kind_eq kind) supported

pub data HandlerShape : Type 0 where
  runner consumer mapper : HandlerShape

abbrev pub is_mapper : HandlerShape → Bool
is_mapper mapper = true
is_mapper _ = false

pub data ConstraintTag : Type 0 where
  obligation advice : ConstraintTag

-- A handler is called with no argument or with one.
abbrev pub Handler : Type 0 → Type 0
Handler W = List Obj → Action W Obj

pub record ScopedHandler (W : Type 0) : Type 0 where
  pub signal : SignalKind
  pub priority : ℤ
  pub shape : HandlerShape
  pub handler : Handler W

-- `get_handlers`. It answers or raises, and does not act on the world.
abbrev pub Provider : Type 0 → Type 0
Provider W = Value → Result (List (ScopedHandler W))

-- The attributes of a signal that the executor looks for.
pub data Payload : Type 0 where
  call : Value → Value → Payload
  result : Obj → Payload
  error : Exc → Payload
  bare : Payload

pub record Signal : Type 0 where
  pub kind : SignalKind
  pub payload : Payload

abbrev pub decision_kind : SignalKind
decision_kind = record { name = "decision"; data_carrying = false }

abbrev pub input_kind : SignalKind
input_kind = record { name = "input"; data_carrying = true }

abbrev pub output_kind : SignalKind
output_kind = record { name = "output"; data_carrying = true }

abbrev pub error_kind : SignalKind
error_kind = record { name = "error"; data_carrying = true }

-- DecisionSignal carries the decision under a name that the executor does not look for.
abbrev pub decision_signal : Signal
decision_signal = record { kind = decision_kind; payload = bare }

abbrev pub input_signal : Value → Value → Signal
input_signal args kwargs = record { kind = input_kind; payload = call args kwargs }

abbrev pub output_signal : Obj → Signal
output_signal value = record { kind = output_kind; payload = result value }

abbrev pub error_signal : Exc → Signal
error_signal e = record { kind = error_kind; payload = error e }

-- `_signal_value`
abbrev pub signal_value : Signal → Obj
signal_value s = elim s.payload [
  | call args kwargs ↦ plain (tuple (cons args (cons kwargs nil)))
  | result value ↦ value
  | error e ↦ exception e
  | bare ↦ absent
]
