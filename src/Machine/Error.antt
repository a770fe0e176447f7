-- ===== src/Machine/Error.antt =====
-- Errors as values: one constructor for each message of the source, and for each way in which a
-- system call fails.
pub data IoError : Type 0 where
  not_exist not_dir is_a_dir already_exists not_empty invalid busy too_long_line : IoError

pub data Error : Type 0 where
  io : IoError → Error
  -- a command's exit status or output
  command_failed : Error
  -- internal/posix
  account_exists no_such_account bad_password_chars lookup_user lookup_group : Error
  bad_uid bad_gid no_shadow_entry : Error
  -- internal/sshaccess
  not_single_line looks_private too_few_fields unknown_key_type bad_base64 no_such_key : Error
  ports_equal no_two_ports : Error
  -- internal/borgrepo
  invalid_name not_a_tenant repo_exists no_repo no_repo_anywhere : Error
  -- internal/webui
  forbidden_tenant tenant_required no_random : Error
  -- internal/system, internal/provision
  no_such_unit no_executable not_root unsupported_os not_set_up : Error
  tls_needs_files unknown_tls : Error
  -- internal/cli
  bad_flag usage no_current_user not_registered own_account_only tenant_flag_required : Error
  passwords_differ empty_password no_input no_cert : Error

pub data Result {ℓ} (A : Type ℓ) : Type ℓ where
  ok : A → Result A
  err : Error → Result A
