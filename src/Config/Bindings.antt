-- ===== src/Config/Bindings.antt =====
-- internal/config/config.go: the settings with their keys and defaults, and how they are documented.
-- Their flags and environment variables are read by pflag and viper; the descriptions, and the type of a
-- default beyond the four that are used, are left out.
pub mod Laws
use tfbuddy.Prelude.{
  ℕ, Bool, true, false, List, [], ◌∷◌, ◌++◌, map, if◌then◌else◌, ◌==◌, leb, ◌&&◌, ◌-◌, is_empty,
}
use tfbuddy.Text.{Text, lit, join, itoa}

pub data DefaultValue : Type 0 where
  text_default : Text → DefaultValue
  bool_default : Bool → DefaultValue
  int_default : ℕ → DefaultValue
  list_default : List Text → DefaultValue

pub record Binding : Type 0 where
  pub key : Text
  pub default_value : DefaultValue
  pub shorthand : Text

abbrev pub key_log_level : Text
key_log_level = lit "log-level"

abbrev pub key_dev_mode : Text
key_dev_mode = lit "dev-mode"

abbrev pub key_otel_enabled : Text
key_otel_enabled = lit "otel-enabled"

abbrev pub key_otel_collector_host : Text
key_otel_collector_host = lit "otel-collector-host"

abbrev pub key_otel_collector_port : Text
key_otel_collector_port = lit "otel-collector-port"

abbrev pub key_gitlab_hook_secret_key : Text
key_gitlab_hook_secret_key = lit "gitlab-hook-secret-key"

abbrev pub key_github_hook_secret_key : Text
key_github_hook_secret_key = lit "github-hook-secret-key"

abbrev pub key_default_tfc_organization : Text
key_default_tfc_organization = lit "default-tfc-organization"

abbrev pub key_workspace_allow_list : Text
key_workspace_allow_list = lit "workspace-allow-list"

abbrev pub key_workspace_deny_list : Text
key_workspace_deny_list = lit "workspace-deny-list"

abbrev pub key_allow_auto_merge : Text
key_allow_auto_merge = lit "allow-auto-merge"

abbrev pub key_fail_ci_on_sentinel_soft_fail : Text
key_fail_ci_on_sentinel_soft_fail = lit "fail-ci-on-sentinel-soft-fail"

abbrev pub key_delete_old_comments : Text
key_delete_old_comments = lit "delete-old-comments"

abbrev pub key_nats_service_url : Text
key_nats_service_url = lit "nats-service-url"

abbrev pub key_gitlab_project_allow_list : Text
key_gitlab_project_allow_list = lit "gitlab-project-allow-list"

abbrev pub key_legacy_project_allow_list : Text
key_legacy_project_allow_list = lit "project-allow-list"

abbrev pub key_github_repo_allow_list : Text
key_github_repo_allow_list = lit "github-repo-allow-list"

abbrev pub key_github_clone_depth : Text
key_github_clone_depth = lit "github-clone-depth"

abbrev pub key_gitlab_clone_depth : Text
key_gitlab_clone_depth = lit "gitlab-clone-depth"

abbrev pub key_workspace_fanout_enabled : Text
key_workspace_fanout_enabled = lit "workspace-fanout-enabled"

abbrev pub key_workspace_jet_stream_replicas : Text
key_workspace_jet_stream_replicas = lit "workspace-jetstream-replicas"

abbrev pub key_tfc_rate_limit_rps : Text
key_tfc_rate_limit_rps = lit "tfc-rate-limit-rps"

abbrev pub key_tfc_rate_limit_burst : Text
key_tfc_rate_limit_burst = lit "tfc-rate-limit-burst"

abbrev pub bindings : List Binding
bindings =
    record { key = key_log_level; default_value = text_default (lit "info"); shorthand = lit "v" }
    ∷ record { key = key_dev_mode; default_value = bool_default false; shorthand = [] }
    ∷ record { key = key_otel_enabled; default_value = bool_default false; shorthand = [] }
    ∷ record { key = key_otel_collector_host; default_value = text_default []; shorthand = [] }
    ∷ record { key = key_otel_collector_port; default_value = text_default []; shorthand = [] }
    ∷ record { key = key_gitlab_hook_secret_key; default_value = text_default []; shorthand = [] }
    ∷ record { key = key_github_hook_secret_key; default_value = text_default []; shorthand = [] }
    ∷ record { key = key_default_tfc_organization; default_value = text_default []; shorthand = [] }
    ∷ record { key = key_workspace_allow_list; default_value = list_default []; shorthand = [] }
    ∷ record { key = key_workspace_deny_list; default_value = list_default []; shorthand = [] }
    ∷ record { key = key_allow_auto_merge; default_value = bool_default true; shorthand = [] }
    ∷ record {
      key = key_fail_ci_on_sentinel_soft_fail;
      default_value = bool_default false;
      shorthand = [];
    }
    ∷ record { key = key_delete_old_comments; default_value = bool_default false; shorthand = [] }
    ∷ record { key = key_nats_service_url; default_value = text_default []; shorthand = [] }
    ∷ record {
      key = key_gitlab_project_allow_list;
      default_value = list_default [];
      shorthand = [];
    }
    ∷ record {
      key = key_legacy_project_allow_list;
      default_value = list_default [];
      shorthand = [];
    }
    ∷ record { key = key_github_repo_allow_list; default_value = list_default []; shorthand = [] }
    ∷ record { key = key_github_clone_depth; default_value = int_default 0; shorthand = [] }
    ∷ record { key = key_gitlab_clone_depth; default_value = int_default 0; shorthand = [] }
    ∷ record {
      key = key_workspace_fanout_enabled;
      default_value = bool_default true;
      shorthand = [];
    }
    ∷ record {
      key = key_workspace_jet_stream_replicas;
      default_value = int_default 1;
      shorthand = [];
    }
    ∷ record { key = key_tfc_rate_limit_rps; default_value = int_default 30; shorthand = [] }
    ∷ record { key = key_tfc_rate_limit_burst; default_value = int_default 30; shorthand = [] }
    ∷ []

-- `strings.ToUpper` on ASCII letters, which the keys are made of.
unfoldable pub upper : ℕ → ℕ
upper c = if leb 97 c && leb c 122 then c - 32 else c

unfoldable pub underscored : ℕ → ℕ
underscored c = if c == b'-' then b'_' else c

abbrev pub env_char : ℕ → ℕ
env_char c = upper (underscored c)

unfoldable pub env_var_name : Text → Text
env_var_name key = lit "TFBUDDY_" ++ map env_char key

unfoldable pub flag_name : Binding → Text
flag_name item =
    if is_empty item.shorthand
    then lit "--" ++ item.key
    else lit "--" ++ item.key ++ lit ", -" ++ item.shorthand

unfoldable pub default_value_string : DefaultValue → Text
default_value_string (text_default v) = v
default_value_string (bool_default v) = if v then lit "true" else lit "false"
default_value_string (int_default v) = itoa v
default_value_string (list_default v) = join (lit ",") v

pub record DocumentationOption : Type 0 where
  pub env_vars : List Text
  pub flag : Text
  pub default_text : Text

unfoldable pub documentation_option : Binding → DocumentationOption
documentation_option item = record {
  env_vars = env_var_name item.key ∷ [];
  flag = flag_name item;
  default_text = default_value_string item.default_value;
}

unfoldable pub documentation_options : List DocumentationOption
documentation_options = map documentation_option bindings
