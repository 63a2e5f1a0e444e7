-- ===== src/Redis/Script.antt =====
-- The Lua that src/ngx_auth_webauthn_redis.c sends with EVAL: statements, the text that is sent, and what a server runs for it.
use nginx_auth_webauthn.Base.{
  ℕ, Bytes, codes, ltb, ◌==◌, if◌then◌else◌, Bool, true, false, Option, some, List, [], ◌∷◌, ◌++◌,
}
use nginx_auth_webauthn.Base.Word.{ℤ, pos, negsuc}
use nginx_auth_webauthn.Platform.{Command, Reply}
use nginx_auth_webauthn.Redis.Decimal.{decimal}

-- The script's parameters, and a call of a command with some of them.
pub data Param : Type 0 where
  keys_1 argv_1 : Param

pub record ScriptCall : Type 0 where
  pub name : Bytes
  pub params : List Param

-- The one local is `c`.
pub data Condition : Type 0 where
  c_is : ℕ → Condition
  below : ScriptCall → ℕ → Condition
  either : Condition → Condition → Condition

pub data Statement : Type 0 where
  local_c : ScriptCall → Statement
  call_if : Condition → ScriptCall → Statement
  return_c : Statement

abbrev argument_text : Param → Bytes
argument_text keys_1 = codes "KEYS[1]"
argument_text argv_1 = codes "ARGV[1]"

params_text : List Param → Bytes
params_text [] = []
params_text (p ∷ ps) = codes ", " ++ argument_text p ++ params_text ps

call_text : ScriptCall → Bytes
unfolding params_text
call_text call =
    codes "redis.call('" ++ call.name ++ codes "'" ++ params_text call.params ++ codes ")"

condition_text : Condition → Bytes
unfolding call_text
condition_text (c_is n) = codes "c == " ++ decimal n
condition_text (below call n) = call_text call ++ codes " < " ++ decimal n
condition_text (either a b) = condition_text a ++ codes " or " ++ condition_text b

statement_text : Statement → Bytes
unfolding call_text condition_text
statement_text (local_c call) = codes "local c = " ++ call_text call
statement_text (call_if condition call) =
    codes "if "
    ++ condition_text condition
    ++ codes " then"
    ++ (10 ∷ codes "  ")
    ++ call_text call
    ++ (10 ∷ codes "end")
statement_text return_c = codes "return c"

-- The statements, one to a line.
unfoldable pub script_text : List Statement → Bytes
unfolding statement_text
script_text [] = []
script_text (s ∷ []) = statement_text s
script_text (s ∷ ss) = statement_text s ++ (10 ∷ script_text ss)

abbrev int_is : ℤ → ℕ → Bool
int_is (pos m) n = m == n
int_is (negsuc m) n = false

abbrev pub int_below : ℤ → ℕ → Bool
int_below (pos m) n = ltb m n
int_below (negsuc m) n = true

-- `redis.call`: an integer to go on with, and any other reply ends the script.
abbrev with_integer :
    {Server : Type 0}
    → Option Reply × Server
    → (ℤ → Server → Option Reply × Server)
    → Option Reply × Server
with_integer (some (Reply.integer n), s) next = next n s
with_integer (r, s) next = (r, s)

module _ {Server : Type 0} (command : Command Server) (key arg : Bytes) where
  abbrev argument : Param → Bytes
  argument keys_1 = key
  argument argv_1 = arg

  unfoldable pub arguments : List Param → List Bytes
  arguments [] = []
  arguments (p ∷ ps) = argument p ∷ arguments ps

  unfoldable pub run_call :
      ScriptCall → Server → (ℤ → Server → Option Reply × Server) → Option Reply × Server
  unfolding arguments
  run_call c s next = with_integer (command (c.name ∷ arguments c.params) s) next

  -- `or` looks at its second condition only where the first fails.
  unfoldable pub run_condition :
      Condition → ℤ → Server → (Bool → Server → Option Reply × Server) → Option Reply × Server
  unfolding run_call
  run_condition (c_is n) c s next = next (int_is c n) s
  run_condition (below asked n) c s next = run_call asked s λ m s'. next (int_below m n) s'
  run_condition (either a b) c s next =
      run_condition a c s λ holds s'. if holds then next true s' else run_condition b c s' next

  unfoldable pub run_script : List Statement → ℤ → Server → Option Reply × Server
  unfolding run_call run_condition
  run_script [] c s = (some Reply.nil, s)
  run_script (local_c first ∷ rest) c s = run_call first s λ n s'. run_script rest n s'
  run_script (call_if condition then_call ∷ rest) c s =
      let goes_on = run_script rest c in
      run_condition condition c s
        λ holds s'. if holds then run_call then_call s' (λ n s''. goes_on s'') else goes_on s'
  run_script (return_c ∷ rest) c s = (some (Reply.integer c), s)
