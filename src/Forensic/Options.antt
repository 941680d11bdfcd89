-- ===== src/Forensic/Options.antt =====
-- A command line of the options of PROJ1/src/forensic.c, and what processArgs makes of it.
use sope.Prelude.{
  ◌<◌, ◌≡◌, refl, ap, ◌∙◌, Bool, true, false, ◌||◌, List, [], ◌∷◌, Option, none, some, Text, arith,
  length, str_eq, ltb, if◌then◌else◌,
}
use sope.Prelude.Strings.{codes, strstr}
use sope.Forensic.{
  ForensicArgs, FileKind, directory, regular, other, Outside, processed, ◌>>=◌, no_args, with_log,
  process_options, last_of, joined, with_path, with_kind, with_command, process_args, max_char,
}

-- What a user chooses: [-r] [-h <sums>] [-o <outfile>] [-v].
pub record Choice : Type 0 where
  pub recursive : Bool
  pub sums : Option Text
  pub out_file : Option Text
  pub log : Bool

abbrev flag : Bool → Text → List Text → List Text
flag b name rest = if b then name ∷ rest else rest

abbrev option : Option Text → Text → List Text → List Text
option none name rest = rest
option (some value) name rest = name ∷ value ∷ rest

-- the arguments that stand for a choice, in the order of the usage line
abbrev pub argv_of : Choice → (path : Text) → List Text
argv_of c path = flag c.recursive (codes "-r") (
    option c.sums (codes "-h")
      (option c.out_file (codes "-o") (flag c.log (codes "-v") (path ∷ []))))

abbrev pub is_some : Option Text → Bool
is_some none = false
is_some (some x) = true

abbrev pub names : Option Text → Text → Bool
names none sum = false
names (some list) sum = strstr list sum

abbrev pub is_directory : FileKind → Bool
is_directory directory = true
is_directory _ = false

abbrev pub is_scannable : Option FileKind → Bool
is_scannable (some directory) = true
is_scannable (some regular) = true
is_scannable _ = false

module _ (sys : Outside) where
  -- the arguments that a choice asks for
  abbrev pub args_of : Choice → (is_dir : Bool) (path command : Text) → ForensicArgs
  args_of c is_dir path command = record {
    r = c.recursive;
    h = is_some c.sums;
    md5 = names c.sums (codes "md5");
    sha1 = names c.sums (codes "sha1");
    sha256 = names c.sums (codes "sha256");
    v = c.log;
    o = is_some c.out_file;
    is_dir = is_dir;
    path = path;
    log_file_path = if c.log then sys.log_file_name else none;
    out_file_path = c.out_file;
    command = command;
  }

  abbrev names_sum : Option Text → Bool
  names_sum none = true
  names_sum (some list) =
      strstr list (codes "md5") || strstr list (codes "sha1") || strstr list (codes "sha256")

  abbrev opens_if : Bool → Option Text → Bool
  opens_if true (some f) = sys.opens f
  opens_if true none = false
  opens_if false f = true

  -- A choice that the program can follow: -h names a sum, and the files to write open.
  pub record IsPossible (c : Choice) : Type 0 where
    pub sum_named : names_sum c.sums ≡ true
    pub out_opens : opens_if (is_some c.out_file) c.out_file ≡ true
    pub log_opens : opens_if c.log sys.log_file_name ≡ true

  with_log-lem :
      (name : Option Text)
      → sys.log_file_name ≡ name
      → opens_if true name ≡ true
      → (args : ForensicArgs)
      → with_log sys args ≡ processed (record args { v = true; log_file_path = name })
  with_log-lem none e h args = cc
  with_log-lem (some name) e h args = let opens : sys.opens name ≡ true = h in rw (e, opens) refl

  abbrev after_v : Bool → ForensicArgs → ForensicArgs
  after_v b args = if b then record args { v = true; log_file_path = sys.log_file_name } else args

  options_v :
      (b : Bool)
      → opens_if b sys.log_file_name ≡ true
      → (path : Text) (args : ForensicArgs)
      → process_options sys (flag b (codes "-v") (path ∷ [])) args ≡ processed (after_v b args)
  unfolding process_options str_eq
  options_v false h path args = refl
  options_v true h path args = rw (with_log-lem sys.log_file_name refl h args) refl

  abbrev after_o : Option Text → ForensicArgs → ForensicArgs
  after_o none args = args
  after_o (some f) args = record args { o = true; out_file_path = some f }

  options_o :
      (f : Option Text)
      → opens_if (is_some f) f ≡ true
      → (rest : List Text) (args : ForensicArgs)
      → process_options sys (option f (codes "-o") rest) args
        ≡ process_options sys rest (after_o f args)
  unfolding process_options str_eq
  options_o none h rest args = refl
  options_o (some f) h rest args = let opens : sys.opens f ≡ true = h in rw opens refl

  options_h :
      (list : Option Text)
      → names_sum list ≡ true
      → (b : Bool) (rest : List Text)
      → process_options sys (option list (codes "-h") rest) (record no_args { r = b })
        ≡ process_options sys rest (record no_args {
          r = b;
          h = is_some list;
          md5 = names list (codes "md5");
          sha1 = names list (codes "sha1");
          sha256 = names list (codes "sha256");
        })
  unfolding process_options str_eq
  options_h none h b rest = refl
  options_h (some list) h b rest =
      let named : (strstr list (codes "md5")
            || strstr list (codes "sha1")
            || strstr list (codes "sha256"))
          ≡ true =
        h in
      rw named refl

  -- -r stands first
  options_r :
      (b : Bool) (sums out : Option Text) (log : Bool) (path : Text)
      → let rest =
          option sums (codes "-h") (option out (codes "-o") (flag log (codes "-v") (path ∷ []))) in
        process_options sys (flag b (codes "-r") rest) no_args
        ≡ process_options sys rest (record no_args { r = b })
  unfolding process_options str_eq
  options_r false sums out log path = refl
  options_r true (some list) out log path = refl
  options_r true none (some f) log path = refl
  options_r true none none true path = refl
  options_r true none none false path = refl

  -- a list with something in it, and path at its end
  record Ends (path : Text) (l : List Text) : Type 0 where
    has_one : 0 < length l
    at_end : (d : Text) → last_of d l ≡ path

  flag-Ends :
      {path : Text} (b : Bool) (name : Text) {rest : List Text}
      → Ends path rest
      → Ends path (flag b name rest)
  flag-Ends true name e = record { has_one = omega arith; at_end = λ d. e.at_end name }
  flag-Ends false name e = e

  option-Ends :
      {path : Text} (o : Option Text) (name : Text) {rest : List Text}
      → Ends path rest
      → Ends path (option o name rest)
  option-Ends none name e = e
  option-Ends (some x) name e = record { has_one = omega arith; at_end = λ d. e.at_end x }

  argv_of-Ends : (c : Choice) (path : Text) → Ends path (argv_of c path)
  argv_of-Ends c path = flag-Ends c.recursive (codes "-r") (
      option-Ends c.sums (codes "-h") (
        option-Ends c.out_file (codes "-o")
          (flag-Ends c.log (codes "-v") (record { has_one = omega arith; at_end = λ d. refl }))))

  process_args-at_end :
      (prog path : Text) (l : List Text)
      → Ends path l
      → process_args sys prog l ≡ (
          process_options sys l no_args >>= λ args.
          with_path sys path args >>= λ found. with_command (joined prog l) found)
  unfolding process_args
  process_args-at_end prog path [] e = ground (arith, e.has_one)
  process_args-at_end prog path (x ∷ xs) e = rw (e.at_end prog) refl

  options-argv_of :
      (c : Choice)
      → IsPossible c
      → (path : Text)
      → process_options sys (argv_of c path) no_args
        ≡ processed (record (args_of c false path []) { path = [] })
  options-argv_of c p path =
      options_r c.recursive c.sums c.out_file c.log path
      ∙ options_h c.sums p.sum_named c.recursive _
      ∙ options_o c.out_file p.out_opens _ _
      ∙ options_v c.log p.log_opens path _
      ∙ ap processed (chosen c.out_file c.log)
    where
      -- the options set what args_of names
      chosen :
          (out : Option Text) (log : Bool)
          → after_v log (
              after_o out (record no_args {
                r = c.recursive;
                h = is_some c.sums;
                md5 = names c.sums (codes "md5");
                sha1 = names c.sums (codes "sha1");
                sha256 = names c.sums (codes "sha256");
              }))
            ≡ record (args_of (record c { out_file = out; log = log }) false path []) { path = [] }
      chosen none true = refl
      chosen none false = refl
      chosen (some f) true = refl
      chosen (some f) false = refl

  module _ (c : Choice) (p : IsPossible c) (prog path : Text) where
    -- For a choice whose -h names a sum, whose files to write open, a path that is a directory or a
    -- regular file, and a command line that fits in `command`, processArgs comes back with exactly the
    -- chosen arguments, the path and the command.
    pub process_args-argv_of :
        (kind : FileKind)
        → sys.stat path ≡ some kind
        → is_scannable (some kind) ≡ true
        → ltb (length (joined prog (argv_of c path))) max_char ≡ true
        → process_args sys prog (argv_of c path)
          ≡ processed (args_of c (is_directory kind) path (joined prog (argv_of c path)))
    process_args-argv_of kind st scannable short =
        process_args-at_end prog path (argv_of c path) (argv_of-Ends c path)
        ∙ rw (options-argv_of c p path, with_path, st) (of_kind kind scannable)
      where
        args : ForensicArgs
        args = record (args_of c false path []) { path = [] }

        of_kind :
            (k : FileKind)
            → is_scannable (some k) ≡ true
            → (with_kind path args (some k) >>= λ found.
                with_command (joined prog (argv_of c path)) found)
              ≡ processed (args_of c (is_directory k) path (joined prog (argv_of c path)))
        of_kind directory e = rw short refl
        of_kind regular e = rw short refl
        of_kind other e = cc
