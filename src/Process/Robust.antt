-- ===== src/Process/Robust.antt =====
-- On a system that works, `eval` and `run` of main/src/process.rs do not fail.
use Prim.Native.String.{String}
use tansa.Prelude.{sym, subst, ◌∙◌, true, some, List, [], ◌∷◌, ok}
use tansa.Async.Runs.{Trace}
use tansa.Async.Execute.{AllGood, good_event, no_event, IsRobust}
use tansa.Protocol.{Bytes}
use tansa.Process.{eval, run, ProcessError}
use tansa.Process.Failures.{
  WaitFails, not_waited, unsuccessful, no_stdout, not_read, RunFails, EvalFails, run-err, eval-err,
}
use tansa.Process.Outcomes.{Ran, Evaluated}
use tansa.Os.{
  os, Command, Handle, spawn, take_stdin, take_stdout, write_all, close, wait, read_to_end,
}
use tansa.Os.Works.{Outputs, Works}

module _ (W : Outputs) where
  not_wait :
      {p : Handle} {t : Trace os} {e : ProcessError} → AllGood (Works W) t → ¬ WaitFails p t e
  not_wait no_event w = elim w [ ]
  not_wait (good_event _ _ x _) (not_waited e) = x
  not_wait (good_event _ _ x _) unsuccessful = x
  not_wait (good_event _ _ _ (good_event _ _ x _)) no_stdout = x
  not_wait (good_event _ _ _ (good_event _ _ _ (good_event _ _ x _))) (not_read h e) = x

  not_run : {c : Command} {t : Trace os} {e : ProcessError} → AllGood (Works W) t → ¬ RunFails c t e
  not_run no_event w = elim w [ ]
  not_run (good_event _ _ x _) (RunFails.not_spawned e) = x
  not_run (good_event _ _ _ g) (RunFails.failed p w) = not_wait g w

  not_eval :
      {c : Command} {input : Bytes} {t : Trace os} {e : ProcessError}
      → AllGood (Works W) t
      → ¬ EvalFails c input t e
  not_eval no_event w = elim w [ ]
  not_eval (good_event _ _ x _) (EvalFails.not_spawned e) = x
  not_eval (good_event _ _ _ (good_event _ _ x _)) (EvalFails.no_stdin p) = x
  not_eval (good_event _ _ _ (good_event _ _ _ (good_event _ _ x _)))
        (EvalFails.not_written p i e) =
      x
  not_eval (good_event _ _ _ (good_event _ _ _ (good_event _ _ _ (good_event _ _ _ g))))
        (EvalFails.failed p i w) =
      not_wait g w

  pub run-IsRobust : (command : String) (args : List String) → IsRobust (Works W) (run command args)
  run-IsRobust command args t e g q = not_run g (run-err command args q)

  pub eval-IsRobust :
      (command : String) (args : List String) (input : Bytes)
      → IsRobust (Works W) (eval command args input)
  eval-IsRobust command args input t e g q = not_eval g (eval-err command args input q)

  -- What a command printed fits it.
  pub Ran-fits :
      {c : Command} {t : Trace os} {out : Bytes} → Ran c t out → AllGood (Works W) t → W.fits c out
  Ran-fits {c} r g = ran_well (subst (AllGood (Works W)) r.history g)
    where
      ran_well :
          {p h : Handle} {out : Bytes}
          → AllGood (Works W) (
              (spawn c, ok p)
              ∷ (wait p, ok true)
              ∷ (take_stdout p, some h)
              ∷ (read_to_end h, ok out)
              ∷ [])
          → W.fits c out
      ran_well (good_event _ _ x (good_event _ _ _ (good_event _ _ y (good_event _ _ z _)))) =
          subst (W.fits c) (sym (z ∙ y)) x

  pub Evaluated-fits :
      {c : Command} {input : Bytes} {t : Trace os} {out : Bytes}
      → Evaluated c input t out
      → AllGood (Works W) t
      → W.fits c out
  Evaluated-fits {c} {input} r g = evaluated_well (subst (AllGood (Works W)) r.history g)
    where
      evaluated_well :
          {p i h : Handle} {out : Bytes}
          → AllGood (Works W) (
              (spawn c, ok p)
              ∷ (take_stdin p, some i)
              ∷ (write_all i input, ok tt)
              ∷ (close i, tt)
              ∷ (wait p, ok true)
              ∷ (take_stdout p, some h)
              ∷ (read_to_end h, ok out)
              ∷ [])
          → W.fits c out
      evaluated_well
            (good_event _ _ x (
              good_event _ _ _ (
                good_event _ _ _
                  (good_event _ _ _ (good_event _ _ _ (good_event _ _ y (good_event _ _ z _))))))) =
          subst (W.fits c) (sym (z ∙ y)) x
