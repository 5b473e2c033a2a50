-- ===== src/Cli/Commands/Exits.antt =====
-- How the program ends: the exit code, and the text on the error stream.
use beam_drop.Prelude.{
  ℕ, zero, suc, ◌≡◌, ◌⊎◌, inl, inr, refl, ap, ◌∙◌, Bool, true, false, Option, none, some, List, [],
  ◌∷◌, ◌++◌, Bytes, same_bytes, if◌then◌else◌,
}
use beam_drop.Errors.{Result, ok, err}
use beam_drop.Text.{codes, decimal}
use beam_drop.Logger.{LogFile}
use beam_drop.App.Request.{SendRequest}
use beam_drop.App.ReceiveServer.{ReceiveServerState, stopped, starting, running, stopping, failed}
use beam_drop.Cli.{
  ServeOptions, serve_defaults, parse_serve_options, send_request, ConfigRun, written, shown,
  run_config,
}
use beam_drop.Cli.Commands.{
  Files, Ended, returned, thrown, Console, follow, logged, log_info, log_error, rethrow,
  progress_texts, usage_text, Services, parsed, try_send, run_send, at_status, watch, watched,
  serving, serve_logged, run_serve, config_done, config_command, exit_code, exit_serve, main,
  serve_starting,
}

-- A command that returns gives 0, and no command writes to the error stream.
abbrev Calm : Console → Ended ℕ × Console → Type 0
Calm s (returned code, t) = (code ≡ 0) × (t.errors ≡ s.errors)
Calm s (thrown message, t) = t.errors ≡ s.errors

follow-cases :
    {A B : Type 0} (P : Ended B × Console → Type 0) (s : Console) (m : Ended A × Console)
    (rest : A → Console → Ended B × Console)
    → m.1.errors ≡ s.errors
    → ((message : Bytes) (t : Console) → t.errors ≡ s.errors → P (thrown message, t))
    → ((a : A) (t : Console) → t.errors ≡ s.errors → P (rest a t))
    → P (follow m rest)
follow-cases P s (returned a, t) rest same lost won = won a t same
follow-cases P s (thrown message, t) rest same lost won = lost message t same

logged-same : (o : Option Bytes × LogFile) (s : Console) → (logged o s).1.errors ≡ s.errors
logged-same (none, f) s = refl
logged-same (some fault, f) s = refl

rethrow-Calm :
    (prefix : Bytes) (s : Console) (r : Ended ℕ × Console) → Calm s r → Calm s (rethrow prefix r)
rethrow-Calm prefix s (returned code, t) c = c
rethrow-Calm prefix s (thrown message, t) c =
    follow-cases (Calm s) t (log_error (prefix ++ message) t) _ (logged-same _ t)
      (λ m u same. same ∙ c) λ a u same. same ∙ c

Calm-trans : (s t : Console) (r : Ended ℕ × Console) → t.errors ≡ s.errors → Calm t r → Calm s r
Calm-trans s t (returned code, u) same c = (c.0, c.1 ∙ same)
Calm-trans s t (thrown message, u) same c = c ∙ same

module _ (services : Services) (files : Files) where
  parsed-same :
      {A : Type 0} (args : List Bytes) (r : Result A) (s : Console)
      → (parsed services files args r s).1.errors ≡ s.errors
  parsed-same args (ok a) s = refl
  parsed-same args (err e) s = refl

  counted-Calm :
      (request : SendRequest) (r : Ended ℕ) (s : Console) (rest : ℕ → Console → Ended ℕ × Console)
      → ((count : ℕ) → Calm s (rest count s))
      → Calm s (follow (r, s) rest)
  counted-Calm request (returned count) s rest c = c count
  counted-Calm request (thrown message) s rest c = refl

  try_send-Calm : (request : SendRequest) (s : Console) → Calm s (try_send services files request s)
  unfolding try_send
  try_send-Calm request s =
      counted-Calm request (services.sending request).1
        (record s { output = s.output ++ progress_texts (services.sending request).0 }) _
        λ count.
          let text =
            codes "beamdrop send sent "
            ++ (decimal count
                ++ (codes " file(s) to "
                    ++ (request.host ++ (b':' ∷ (decimal request.port ++ b'\n' ∷ []))))) in
          let told : Console = record s {
            output = (s.output ++ progress_texts (services.sending request).0) ++ text;
          } in
          let finish : Unit {0} → Console → Ended ℕ × Console = λ u z. (returned 0, z) in
          follow-cases (Calm s) s
            (log_info (codes "send completed file_count=" ++ decimal count) told) finish
            (logged-same _ told) (λ m u same. same) λ a u same. (refl, same)

  run_send-Calm : (args : List Bytes) (s : Console) → Calm s (run_send services files args s)
  unfolding run_send
  run_send-Calm args s =
      follow-cases (Calm s) s (parsed services files args (send_request files args) s) _
        (parsed-same args _ s) (λ m t same. same)
        λ request t same.
          follow-cases (Calm s) t _ _ (logged-same _ t) (λ m u same'. same' ∙ same)
            λ a u same'.
              rethrow-Calm (codes "send failed: ") s _
                (Calm-trans s u _ (same' ∙ same) (try_send-Calm request u))

  config_done-Calm : (run : ConfigRun) (s : Console) → Calm s (config_done services files run s)
  config_done-Calm (written path text) s = (refl, refl)
  config_done-Calm (shown text) s = (refl, refl)

  config_command-Calm :
      (args : List Bytes) (s : Console) → Calm s (config_command services files args s)
  unfolding config_command
  config_command-Calm args s =
      follow-cases (Calm s) s (parsed services files args (run_config files args) s) _
        (parsed-same args _ s) (λ m t same. same)
        λ run t same. Calm-trans s t _ same (config_done-Calm run t)

  -- A serve command that ends has thrown.
  abbrev Throws : Console → Option (Ended ℕ × Console) → Type 0
  Throws s none = Unit {0}
  Throws s (some (returned code, t)) = ⊥
  Throws s (some (thrown message, t)) = t.errors ≡ s.errors

  abbrev OnlyThrows : Option (Ended ℕ) → Type 0
  OnlyThrows none = Unit {0}
  OnlyThrows (some (returned code)) = ⊥
  OnlyThrows (some (thrown message)) = Unit {0}

  at_status-OnlyThrows :
      (status : ReceiveServerState × Option Bytes) (later : Option (Ended ℕ))
      → OnlyThrows later
      → OnlyThrows (at_status services files status later)
  at_status-OnlyThrows (failed, last_error) later o = tt
  at_status-OnlyThrows (stopped, last_error) later o = tt
  at_status-OnlyThrows (starting, last_error) later o = o
  at_status-OnlyThrows (running, last_error) later o = o
  at_status-OnlyThrows (stopping, last_error) later o = o

  watch-OnlyThrows : (turns k : ℕ) → OnlyThrows (watch services files turns k)
  unfolding watch
  watch-OnlyThrows zero k = tt
  watch-OnlyThrows (suc turns) k =
      at_status-OnlyThrows (services.status k) _ (watch-OnlyThrows turns (suc k))

  rethrow-Throws :
      (prefix message : Bytes) (s t : Console)
      → t.errors ≡ s.errors
      → Throws s (some (rethrow prefix (thrown message, t)))
  rethrow-Throws prefix message s t same =
      follow-cases (λ r. Throws s (some r)) t (log_error (prefix ++ message) t) _ (logged-same _ t)
        (λ m u same'. same' ∙ same) λ a u same'. same' ∙ same

  watched-Throws :
      (o : Option (Ended ℕ)) (s t : Console)
      → t.errors ≡ s.errors
      → OnlyThrows o
      → Throws s (watched services files o t)
  watched-Throws none s t same o = tt
  watched-Throws (some (returned code)) s t same o = absurd o
  watched-Throws (some (thrown message)) s t same o =
      rethrow-Throws (codes "serve failed: ") message s t same

  serving-Throws :
      (turns : ℕ) (o : ServeOptions) (r : Ended (Unit {0})) (s t : Console)
      → t.errors ≡ s.errors
      → Throws s (serving services files turns o (r, t))
  serving-Throws turns o (returned u) s t same =
      watched-Throws (watch services files turns 0) s _ same (watch-OnlyThrows turns 0)
  serving-Throws turns o (thrown message) s t same =
      rethrow-Throws (codes "serve failed: ") message s t same

  run_serve-Throws :
      (turns : ℕ) (args : List Bytes) (s : Console)
      → Throws s (run_serve services files turns args s)
  unfolding run_serve
  run_serve-Throws turns args s =
      follow-cases (λ r. Throws s (serve_logged services files turns r)) s
        (parsed services files args (parse_serve_options files args serve_defaults) s) _
        (parsed-same args _ s) (λ m t same. same)
        λ o t same.
          let listen : Unit {0} → Console → Ended ServeOptions × Console = λ u z. (returned o, z) in
          follow-cases (λ r. Throws s (serve_logged services files turns r)) t
            (log_info (serve_starting services files o) t) listen (logged-same _ t)
            (λ m u same'. same' ∙ same)
            λ a u same'. serving-Throws turns o (services.starting_up o) s u (same' ∙ same)

  abbrev pub is_serve : List Bytes → Bool
  is_serve [] = false
  is_serve (command ∷ args) = same_bytes command (codes "serve")

  -- How the program may end: with 0 and nothing on the error stream, which no serve command does; with
  -- 1 and the usage; or with 1 and a text on the error stream.
  abbrev pub Exits : List Bytes → Console → Option (ℕ × Console) → Type 0
  Exits args s none = is_serve args ≡ true
  Exits args s (some (code, t)) =
      ((code ≡ 0) × ((t.errors ≡ s.errors) × (is_serve args ≡ false)))
      ⊎ ((code ≡ 1)
          × (((t.errors ≡ s.errors) × (t.output ≡ s.output ++ usage_text))
              ⊎ ((message : Bytes) × (t.errors
                    ≡ s.errors ++ (codes "beamdrop error: " ++ (message ++ b'\n' ∷ []))))))

  exit_code-Exits :
      (args : List Bytes) (s : Console) (r : Ended ℕ × Console)
      → is_serve args ≡ false
      → Calm s r
      → Exits args s (some (exit_code services files r))
  exit_code-Exits args s (returned code, t) no_serve c = inl (c.0, (c.1, no_serve))
  exit_code-Exits args s (thrown message, t) no_serve c =
      inr (
        refl,
        inr (message, ap (λ e. e ++ (codes "beamdrop error: " ++ (message ++ b'\n' ∷ []))) c),
      )

  exit_serve-Exits :
      (args : List Bytes) (s : Console) (o : Option (Ended ℕ × Console))
      → is_serve args ≡ true
      → Throws s o
      → Exits args s (exit_serve services files o)
  exit_serve-Exits args s none serve c = serve
  exit_serve-Exits args s (some (returned code, t)) serve c = absurd c
  exit_serve-Exits args s (some (thrown message, t)) serve c =
      inr (
        refl,
        inr (message, ap (λ e. e ++ (codes "beamdrop error: " ++ (message ++ b'\n' ∷ []))) c),
      )

  choose :
      {A : Type 0} (P : A → Type 0) (b : Bool) (x y : A)
      → (b ≡ true → P x)
      → (b ≡ false → P y)
      → P (if b then x else y)
  choose P true x y p q = p refl
  choose P false x y p q = q refl

  -- The program, where it ends, ends with 0 and nothing on the error stream, with 1 and the usage on its
  -- output, or with 1 and a text on the error stream, which is 'beamdrop error: ', a message and a
  -- newline; and it never ends with 0 for a serve command, which alone may go on.
  pub main-Exits :
      (turns : ℕ) (args : List Bytes) (s : Console)
      → Exits args s (main services files turns args s)
  unfolding main
  main-Exits turns [] s = inl (refl, (refl, refl))
  main-Exits turns (command ∷ args) s =
      let P = Exits (command ∷ args) s in
      choose P (same_bytes command (codes "serve")) _ _
        (λ serve. exit_serve-Exits (command ∷ args) s _ serve (run_serve-Throws turns args s))
        λ no_serve.
          choose P (same_bytes command (codes "send")) _ _
            (λ send. exit_code-Exits (command ∷ args) s _ no_serve (run_send-Calm args s))
            λ no_send.
              choose P (same_bytes command (codes "config")) _ _
                (λ config.
                  exit_code-Exits (command ∷ args) s _ no_serve (config_command-Calm args s))
                λ no_config. inr (refl, inl (refl, refl))
