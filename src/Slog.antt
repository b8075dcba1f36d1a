-- ===== src/Slog.antt =====
-- slog/log.go: messages by level. The package fmt is a parameter.
pub mod Filter
use mulsigo.Prelude.{
  ℕ, Bool, true, false, Option, none, some, List, [], ◌∷◌, ◌++◌, Bytes, ltb, if◌then◌else◌, ◌&&◌,
}

abbrev pub level_fatal : ℕ
level_fatal = 0

abbrev pub level_print : ℕ
level_print = 1

abbrev pub level_info : ℕ
level_info = 2

abbrev pub level_debug : ℕ
level_debug = 3

-- `fmt.Sprintln` and `fmt.Sprintf` on the arguments of a message.
pub record Fmt (Arg : Type 0) : Type 0 where
  pub sprintln : List Arg → Bytes
  pub sprintf : Bytes → List Arg → Bytes
  pub of_text : Bytes → Arg

-- The package's variables; `output` is what has been written to `Output`.
pub record Logger : Type 0 where
  pub level : ℕ
  pub output : Bytes

-- `init`.
unfoldable pub new_logger : Logger
new_logger = record { level = level_print; output = [] }

-- The functions of the package that write; an error is its text.
pub data Call (Arg : Type 0) : Type 0 where
  err_fatal : Option Bytes → Call Arg
  err_fatalf : Option Bytes → Bytes → List Arg → Call Arg
  fatal : List Arg → Call Arg
  fatalf : Bytes → List Arg → Call Arg
  print : List Arg → Call Arg
  printf : Bytes → List Arg → Call Arg
  info : List Arg → Call Arg
  infof : Bytes → List Arg → Call Arg
  debug : List Arg → Call Arg
  debugf : Bytes → List Arg → Call Arg

module _ {Arg : Type 0} (fmt : Fmt Arg) where
  open fmt use {sprintln, sprintf, of_text}

  -- `p`; `none` is its panic on a level that is none of the four. The prefixes are empty, and the
  -- line is itself the format of `Fprintf`.
  unfoldable pub p : Logger → ℕ → List Arg → Option Logger
  p l lvl args =
      if ltb l.level lvl
      then some l
      else if ltb level_debug lvl
      then none
      else some (record l { output = l.output ++ sprintf (sprintln args) [] })

  -- A call of `p` and then `os.Exit` or the return; the second part says whether the program goes on.
  unfoldable pub finish : Option Logger → Bool → Option (Logger × Bool)
  finish none on = none
  finish (some l) on = some (l, on)

  unfoldable pub called : Logger → Call Arg → Option (Logger × Bool)
  called l (err_fatal none) = some (l, true)
  called l (err_fatal (some text)) = finish (p l level_fatal (of_text text ∷ [])) false
  called l (err_fatalf none str args) = some (l, true)
  called l (err_fatalf (some text) str args) =
      finish (p l level_fatal (of_text (sprintf str []) ∷ [])) false
  called l (fatal args) = finish (p l level_fatal args) false
  called l (fatalf str args) = finish (p l level_fatal (of_text (sprintf str args) ∷ [])) false
  called l (print args) = finish (p l level_print args) true
  called l (printf str args) = finish (p l level_print (of_text (sprintf str args) ∷ [])) true
  called l (info args) = finish (p l level_info args) true
  called l (infof str args) = finish (p l level_info (of_text (sprintf str args) ∷ [])) true
  called l (debug args) = finish (p l level_debug args) true
  called l (debugf str args) = finish (p l level_debug (of_text (sprintf str args) ∷ [])) true

  -- Calls one after the other, up to the one that ends the program.
  unfoldable pub run : Logger → List (Call Arg) → Option (Logger × Bool)
  run l [] = some (l, true)
  run l (c ∷ cs) = elim (called l c) [
    | none ↦ none
    | some (l', on) ↦ let rest = run l' cs in if on then rest else some (l', false)
  ]
