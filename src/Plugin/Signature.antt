-- ===== src/Plugin/Signature.antt =====
-- duration_history.py: `normalize_signature`, which keeps of a command what may be stored. The tokens are
-- those of the shell's lexer.
use Prim.Native.String.{◌++◌}
use cachepilot.Prelude.{
  String, Bool, true, ◌&&◌, ◌||◌, Option, none, some, List, [], ◌∷◌, length, ltb, str_eq, contains,
  if◌then◌else◌,
}
use cachepilot.Prelude.TextSet.{sorted_set}
use cachepilot.Identity.{join}
use cachepilot.Plugin.Words.{is_flag, flag_name}

-- `SAFE_SUBCOMMAND_WORDS`
unfoldable pub safe_words : List String
safe_words =
    "run" ∷ "test" ∷ "build" ∷ "install" ∷ "uninstall" ∷ "exec" ∷ "compose" ∷ "clone" ∷ "pull"
    ∷ "push" ∷ "add" ∷ "update" ∷ "upgrade" ∷ "lint" ∷ "fmt" ∷ "format" ∷ "check" ∷ "bench"
    ∷ "benchmark" ∷ "init" ∷ "new" ∷ "generate" ∷ "deploy" ∷ "serve" ∷ "watch" ∷ "dev" ∷ "start"
    ∷ "stop" ∷ "clean" ∷ "audit" ∷ "sync" ∷ "list" ∷ "show" ∷ "get" ∷ "set" ∷ "configure" ∷ "buildx"
    ∷ "search" ∷ "download" ∷ "fetch" ∷ "compile" ∷ "package" ∷ "publish" ∷ "login" ∷ "logout"
    ∷ "create" ∷ "delete" ∷ "remove" ∷ "reset" ∷ "verify" ∷ "validate" ∷ "export" ∷ "import"
    ∷ "migrate" ∷ "seed" ∷ "scaffold" ∷ "doctor" ∷ "env" ∷ "shell" ∷ "repl" ∷ "lock" ∷ "unlock"
    ∷ "stats" ∷ "status" ∷ "pytest" ∷ "unittest" ∷ "ruff" ∷ "mypy" ∷ "pip" ∷ "npm" ∷ "yarn" ∷ "pnpm"
    ∷ "uv" ∷ "poetry" ∷ "cargo" ∷ "docker" ∷ "make" ∷ "cmake" ∷ "ninja" ∷ "git" ∷ "go" ∷ "node"
    ∷ "python" ∷ "python3" ∷ "pipenv" ∷ "nox" ∷ "tox" ∷ "pre-commit" ∷ "black" ∷ "isort" ∷ "flake8"
    ∷ "sphinx" ∷ "mkdocs" ∷ []

-- `_SHELL_OPERATORS`
abbrev shell_operators : List String
shell_operators = "&&" ∷ "||" ∷ ";" ∷ "|" ∷ ">" ∷ ">>" ∷ "<" ∷ "2>" ∷ "2>>" ∷ "&" ∷ "(" ∷ ")" ∷ []

abbrev pub ends_command : String → Bool
ends_command token = contains token shell_operators || str_eq token "--"

-- The family of the command and the names of its flags.
pub record Parts : Type 0 where
  pub family : List String
  pub flags : List String

-- `family.append(token)`
abbrev pub append_word : List String → String → List String
append_word [] t = t ∷ []
append_word (w ∷ ws) t = w ∷ append_word ws t

-- `lower` is `str.lower`.
module _ (lower : String → String) where
  abbrev pub is_safe : String → Bool
  is_safe token = contains (lower token) safe_words

  -- Whether a positional token is kept.
  abbrev pub is_kept : List String → String → Bool
  is_kept [] token = true
  is_kept (w ∷ ws) token = ltb (length (w ∷ ws)) 3 && is_safe token

  abbrev pub with_flag : Option String → Parts → Parts
  with_flag none p = p
  with_flag (some name) p = record p { flags = name ∷ p.flags }

  -- One round of the loop.
  unfoldable pub take_token : String → Parts → Parts
  unfolding safe_words flag_name
  take_token token p =
      if is_flag token
      then with_flag (flag_name token) p
      else if is_kept p.family token
      then record p { family = append_word p.family token }
      else p

  unfoldable pub collect : List String → Parts → Parts
  unfolding take_token
  collect [] p = p
  collect (t ∷ ts) p = let rest = collect ts (take_token t p) in if ends_command t then p else rest

  unfoldable pub signature_of : Parts → String
  signature_of p = elim p.family [
    | [] ↦ ""
    | w ∷ ws ↦ elim p.flags [
      | [] ↦ join " " (w ∷ ws)
      | f ∷ fs ↦ join " " (w ∷ ws) ++ (" " ++ join " " (sorted_set (f ∷ fs)))
    ]
  ]

  -- `normalize_signature`
  unfoldable pub normalize_signature : List String → String
  unfolding collect signature_of
  normalize_signature tokens = signature_of (collect tokens (record { family = []; flags = [] }))
