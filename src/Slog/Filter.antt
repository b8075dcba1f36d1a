-- ===== src/Slog/Filter.antt =====
-- slog/log.go: what a program writes is what a filter by level keeps.
use mulsigo.Prelude.{
  ◌≤◌, ℕ, Bool, true, false, Option, none, some, List, [], ◌∷◌, ◌++◌, Bytes, leb, if◌then◌else◌,
  ◌≡◌, arith, append_assoc, append-nil,
}
use mulsigo.Slog.{
  Fmt, Logger, Call, err_fatal, err_fatalf, fatal, fatalf, print, printf, info, infof, debug,
  debugf, level_fatal, level_print, level_info, level_debug, p, finish, called, run,
}

module _ {Arg : Type 0} (fmt : Fmt Arg) where
  open fmt use {sprintln, sprintf, of_text}

  -- The message of a call: its level and its arguments, if it has one.
  abbrev pub message : Call Arg → Option (ℕ × List Arg)
  message (err_fatal none) = none
  message (err_fatal (some text)) = some (level_fatal, of_text text ∷ [])
  message (err_fatalf none str args) = none
  message (err_fatalf (some text) str args) = some (level_fatal, of_text (sprintf str []) ∷ [])
  message (fatal args) = some (level_fatal, args)
  message (fatalf str args) = some (level_fatal, of_text (sprintf str args) ∷ [])
  message (print args) = some (level_print, args)
  message (printf str args) = some (level_print, of_text (sprintf str args) ∷ [])
  message (info args) = some (level_info, args)
  message (infof str args) = some (level_info, of_text (sprintf str args) ∷ [])
  message (debug args) = some (level_debug, args)
  message (debugf str args) = some (level_debug, of_text (sprintf str args) ∷ [])

  -- A message is shown up to the level, a fatal one always, and ends the program.
  abbrev pub shown : ℕ → Option (ℕ × List Arg) → Bytes
  shown level none = []
  shown level (some (lvl, args)) = if leb lvl level then sprintf (sprintln args) [] else []

  abbrev pub ends : Option (ℕ × List Arg) → Bool
  ends none = false
  ends (some (lvl, args)) = leb lvl level_fatal

  abbrev pub all_shown : ℕ → List (Call Arg) → Bytes
  all_shown level [] = []
  all_shown level (c ∷ cs) =
      let rest = all_shown level cs in
      if ends (message c) then shown level (message c) else shown level (message c) ++ rest

  abbrev pub goes_on : List (Call Arg) → Bool
  goes_on [] = true
  goes_on (c ∷ cs) = let rest = goes_on cs in if ends (message c) then false else rest

  finish-p :
      (l : Logger) (lvl : ℕ) (args : List Arg) (on : Bool)
      → lvl ≤ level_debug
      → finish fmt (p fmt l lvl args) on
        ≡ some (record l { output = l.output ++ shown l.level (some (lvl, args)) }, on)
  unfolding finish p
  finish-p l lvl args on h = ground (arith, h, append-nil l.output)

  called_shows :
      (l : Logger) (c : Call Arg)
      → called fmt l c
        ≡ some (
          record l { output = l.output ++ shown l.level (message c) },
          if ends (message c) then false else true,
        )
  unfolding called finish
  called_shows l (err_fatal none) = ground (arith, append-nil l.output)
  called_shows l (err_fatal (some text)) =
      finish-p l level_fatal (of_text text ∷ []) false (omega arith)
  called_shows l (err_fatalf none str args) = ground (arith, append-nil l.output)
  called_shows l (err_fatalf (some text) str args) =
      finish-p l level_fatal (of_text (sprintf str []) ∷ []) false (omega arith)
  called_shows l (fatal args) = finish-p l level_fatal (args) false (omega arith)
  called_shows l (fatalf str args) =
      finish-p l level_fatal (of_text (sprintf str args) ∷ []) false (omega arith)
  called_shows l (print args) = finish-p l level_print (args) true (omega arith)
  called_shows l (printf str args) =
      finish-p l level_print (of_text (sprintf str args) ∷ []) true (omega arith)
  called_shows l (info args) = finish-p l level_info (args) true (omega arith)
  called_shows l (infof str args) =
      finish-p l level_info (of_text (sprintf str args) ∷ []) true (omega arith)
  called_shows l (debug args) = finish-p l level_debug (args) true (omega arith)
  called_shows l (debugf str args) =
      finish-p l level_debug (of_text (sprintf str args) ∷ []) true (omega arith)

  -- A program that writes through the package never panics. It writes the messages whose level is
  -- at most that of the package, in order, and none after the first fatal one, which ends it.
  pub run_lem :
      (l : Logger) (cs : List (Call Arg))
      → run fmt l cs ≡ some (record l { output = l.output ++ all_shown l.level cs }, goes_on cs)
  unfolding run
  run_lem l [] = ground (arith, append-nil l.output)
  run_lem l (c ∷ cs) = ground (
    arith,
    called_shows l c,
    run_lem (record l { output = l.output ++ shown l.level (message c) }) cs,
    append_assoc l.output (shown l.level (message c)) (all_shown l.level cs),
  )
