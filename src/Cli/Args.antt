-- ===== src/Cli/Args.antt =====
-- The arguments of the commands: the first loops of `runDeploy` (internal/cli/deploy.go), of `runDestroy`
-- and of `runStatus` (internal/cli/cli.go). `none` stands for ErrUsage.
pub mod Facts
use iold.Base.{
  ◌&&◌, not, Bool, true, false, List, [], ◌∷◌, Text, codes, text_eq, is_empty, has_prefix, Option,
  none, some, if◌then◌else◌,
}

-- A first name that is no flag.
abbrev pub is_name : Text → Text → Bool
is_name name arg = is_empty name && not (has_prefix arg (codes "-"))

pub record DeployArgs : Type 0 where
  pub replace : Bool
  pub ref : Text

unfoldable pub deploy_args : Bool → Text → List Text → Option DeployArgs
deploy_args replace ref [] =
    if is_empty ref then none else some (record { replace = replace; ref = ref })
deploy_args replace ref (arg ∷ more) =
    let flagged = deploy_args true ref more in
    let named = deploy_args replace arg more in
    if text_eq arg (codes "--replace") then flagged else if is_name ref arg then named else none

pub record DestroyArgs : Type 0 where
  pub all : Bool
  pub purge : Bool
  pub id : Text

same_bool : Bool → Bool → Bool
same_bool true b = b
same_bool false b = not b

-- Either all deployments or a named one.
unfoldable pub checked_destroy : Bool → Bool → Text → Option DestroyArgs
unfolding same_bool
checked_destroy all purge id =
    if same_bool all (not (is_empty id))
    then none
    else some (record { all = all; purge = purge; id = id })

unfoldable pub destroy_args : Bool → Bool → Text → List Text → Option DestroyArgs
unfolding checked_destroy
destroy_args all purge id [] = checked_destroy all purge id
destroy_args all purge id (arg ∷ more) =
    let every = destroy_args true purge id more in
    let purging = destroy_args all true id more in
    let named = destroy_args all purge arg more in
    if text_eq arg (codes "--all")
    then every
    else if text_eq arg (codes "--purge")
    then purging
    else if is_name id arg
    then named
    else none

pub record StatusArgs : Type 0 where
  pub as_json : Bool
  pub id : Text

unfoldable pub status_args : Bool → Text → List Text → Option StatusArgs
status_args as_json id [] = some (record { as_json = as_json; id = id })
status_args as_json id (arg ∷ more) =
    let flagged = status_args true id more in
    let named = status_args as_json arg more in
    if text_eq arg (codes "--json") then flagged else if is_empty id then named else none
