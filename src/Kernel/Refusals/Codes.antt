-- ===== src/Kernel/Refusals/Codes.antt =====
-- src/apex/kernel/refusals.py: the code each reason is written as, and the way back.
use apex_fedora.Base.{String, List, [], ◌∷◌, Option, none, some, ◌≡◌, refl, ◌==◌, if◌then◌else◌}
use apex_fedora.Kernel.Refusals.{
  RefusalReason, malformed_digest, malformed_identifier, malformed_package_coordinate,
  malformed_verdict, malformed_device_number, malformed_store_mark, malformed_tree_row,
  malformed_proof_reference, malformed_artifact_manifest, malformed_image_document,
  malformed_oci_manifest, malformed_screen_frame, url_not_https, filename_not_plain,
  download_checksum_mismatch, network_not_permitted, trust_anchor_from_bundle, signature_rejected,
  bundle_content_unsigned, artifact_checksum_mismatch, signed_digest_mismatch,
  image_metadata_mismatch, negative_accepted, negative_wrong_reason, payload_contract_invalid,
  lock_missing, lock_unreadable, lock_schema_unsupported, lock_image_missing,
  lock_image_digest_malformed, lock_image_reference_mutable, lock_sources_empty,
  lock_entry_malformed, lock_checksum_malformed, lock_commit_not_object_id, lock_filename_duplicate,
  negative_quantity, port_out_of_range, mode_out_of_range, limit_not_positive,
  path_outside_runtime_root, path_not_a_regular_file, path_not_a_directory, path_is_a_symlink,
  path_contains_option_separator, runtime_root_not_permitted, runtime_root_not_private,
  line_exceeds_limit, frame_malformed, frame_out_of_order, frame_limit_exceeded,
  frame_checksum_mismatch, frame_incomplete, request_malformed, protocol_mismatch, unit_unknown,
  agent_refused, probe_environment_unexpected, sysfs_attribute_malformed, probe_destination_taken,
  device_not_permitted_for_role, duplicate_device, too_many_devices, not_a_disposable_machine,
  topology_inconsistent, socket_path_too_long, machine_not_running, serial_console_absent,
  fault_already_attempted, fault_not_confirmed, fault_disk_changed, source_image_changed,
  machine_role_mismatch, command_retired, command_unknown, test_access_not_qcow2,
  development_key_changed, public_key_malformed, machine_identity_changed,
  machine_identity_uncheckable, machine_running, host_capacity_insufficient, host_tool_missing,
  firmware_absent, lease_malformed, lease_mismatch, screen_size_changed, console_text_unsupported,
  session_already_open, credentials_malformed, disk_not_qcow2, disk_chain_cycle,
  disk_not_standalone, disk_overlay_exists, device_identity_mismatch, fixture_entry_malformed,
  fixture_path_not_isolated, fixture_request_malformed, fixture_report_malformed,
  fixture_state_unexpected, update_state_unexpected, update_rejection_not_observed, guest_not_ready,
  inspection_mismatch, lock_held, archive_entry_not_regular, stage_failed,
  build_profile_not_reviewed, build_parent_required, build_parent_not_complete,
  build_record_malformed, nvidia_lock_malformed, nvidia_compiler_mismatch, nvidia_report_unbound,
  nvidia_packages_incomplete, fingerprint_lock_malformed, fingerprint_report_unbound,
  fingerprint_input_mismatch, ventoy_lock_malformed, ubuntu_signer_unknown, frozen_image_mismatch,
  builder_not_isolated, host_runs_as_root, compaction_input_unsafe, compaction_validation_failed,
  compaction_space_insufficient, compaction_state_changed, compaction_retained_ineligible,
  patch_source_not_reviewed, patch_source_unexpected, unknown_setting, inconsistent_settings,
  no_verified_result, hardware_requires_physical, pass_requires_proof, unknown_check,
  duplicate_evidence, stale_evidence, proof_kind_not_accepted, simulated_environment,
  environment_not_witnessed, retracted_by_operator, proof_altered, proof_is_empty,
  store_area_not_permitted, store_version_not_supported, legacy_import_not_reproven,
  record_not_bound_to_candidate, shell_string_not_accepted, secret_not_renderable,
  vendor_attribution_present, repository_absolute_path, repository_path_escapes,
  repository_private_document, repository_environment_file, repository_private_directory,
  repository_private_artifact, repository_credential_document, repository_passphrase_file,
  repository_private_key_name, repository_token_document, repository_blob_too_large,
  repository_blob_not_utf8, repository_blob_contains_nul, repository_secret_material,
  repository_local_only_content, repository_index_unmerged, repository_history_not_fetched,
  repository_update_line_malformed, hook_argument_missing, hook_rules_not_loaded, hook_kind_unknown,
  hook_git_failed, hook_content_unread, hook_foreign, hook_no_repository, hook_ports_unwired,
  commit_subject_malformed, commit_subject_too_long, commit_has_body, commit_carriage_return,
  profile_not_reviewed,
}

-- `reason.value`, the code that tests and stored faults match.
unfoldable pub value : RefusalReason → String
value malformed_digest = "malformed.digest"
value malformed_identifier = "malformed.identifier"
value malformed_package_coordinate = "malformed.package-coordinate"
value malformed_verdict = "malformed.verdict"
value malformed_device_number = "malformed.device-number"
value malformed_store_mark = "malformed.store-mark"
value malformed_tree_row = "malformed.tree-row"
value malformed_proof_reference = "malformed.proof-reference"
value malformed_artifact_manifest = "malformed.artifact-manifest"
value malformed_image_document = "malformed.image-document"
value malformed_oci_manifest = "malformed.oci-manifest"
value malformed_screen_frame = "malformed.screen-frame"
value url_not_https = "locator.url-not-https"
value filename_not_plain = "locator.filename-not-plain"
value download_checksum_mismatch = "download.checksum-mismatch"
value network_not_permitted = "download.network-not-permitted"
value trust_anchor_from_bundle = "trust.anchor-from-bundle"
value signature_rejected = "trust.signature-rejected"
value bundle_content_unsigned = "trust.bundle-content-unsigned"
value artifact_checksum_mismatch = "trust.artifact-checksum-mismatch"
value signed_digest_mismatch = "trust.signed-digest-mismatch"
value image_metadata_mismatch = "trust.image-metadata-mismatch"
value negative_accepted = "trust.negative-accepted"
value negative_wrong_reason = "trust.negative-wrong-reason"
value payload_contract_invalid = "trust.payload-contract-invalid"
value lock_missing = "lock.missing"
value lock_unreadable = "lock.unreadable"
value lock_schema_unsupported = "lock.schema-unsupported"
value lock_image_missing = "lock.image-missing"
value lock_image_digest_malformed = "lock.image-digest-malformed"
value lock_image_reference_mutable = "lock.image-reference-mutable"
value lock_sources_empty = "lock.sources-empty"
value lock_entry_malformed = "lock.entry-malformed"
value lock_checksum_malformed = "lock.checksum-malformed"
value lock_commit_not_object_id = "lock.commit-not-object-id"
value lock_filename_duplicate = "lock.filename-duplicate"
value negative_quantity = "quantity.negative"
value port_out_of_range = "quantity.port-out-of-range"
value mode_out_of_range = "quantity.mode-out-of-range"
value limit_not_positive = "quantity.limit-not-positive"
value path_outside_runtime_root = "path.outside-runtime-root"
value path_not_a_regular_file = "path.not-a-regular-file"
value path_not_a_directory = "path.not-a-directory"
value path_is_a_symlink = "path.is-a-symlink"
value path_contains_option_separator = "path.contains-option-separator"
value runtime_root_not_permitted = "path.runtime-root-not-permitted"
value runtime_root_not_private = "path.runtime-root-not-private"
value line_exceeds_limit = "bounded.line-exceeds-limit"
value frame_malformed = "frame.malformed"
value frame_out_of_order = "frame.out-of-order"
value frame_limit_exceeded = "frame.limit-exceeded"
value frame_checksum_mismatch = "frame.checksum-mismatch"
value frame_incomplete = "frame.incomplete"
value request_malformed = "agent.request-malformed"
value protocol_mismatch = "agent.protocol-mismatch"
value unit_unknown = "agent.unit-unknown"
value agent_refused = "agent.refused"
value probe_environment_unexpected = "probe.environment-unexpected"
value sysfs_attribute_malformed = "probe.sysfs-attribute-malformed"
value probe_destination_taken = "probe.destination-taken"
value device_not_permitted_for_role = "machine.device-not-permitted-for-role"
value duplicate_device = "machine.duplicate-device"
value too_many_devices = "machine.too-many-devices"
value not_a_disposable_machine = "machine.not-disposable"
value topology_inconsistent = "machine.topology-inconsistent"
value socket_path_too_long = "machine.socket-path-too-long"
value machine_not_running = "machine.not-running"
value serial_console_absent = "machine.serial-console-absent"
value fault_already_attempted = "fault.already-attempted"
value fault_not_confirmed = "fault.not-confirmed"
value fault_disk_changed = "fault.disk-changed"
value source_image_changed = "fault.source-image-changed"
value machine_role_mismatch = "machine.role-mismatch"
value command_retired = "command.retired"
value command_unknown = "command.unknown"
value test_access_not_qcow2 = "build.test-access-not-qcow2"
value development_key_changed = "trust.development-key-changed"
value public_key_malformed = "trust.public-key-malformed"
value machine_identity_changed = "machine.identity-changed"
value machine_identity_uncheckable = "machine.identity-uncheckable"
value machine_running = "machine.running"
value host_capacity_insufficient = "machine.host-capacity-insufficient"
value host_tool_missing = "machine.host-tool-missing"
value firmware_absent = "machine.firmware-absent"
value lease_malformed = "machine.lease-malformed"
value lease_mismatch = "machine.lease-mismatch"
value screen_size_changed = "screen.size-changed"
value console_text_unsupported = "console.text-unsupported"
value session_already_open = "desktop.session-already-open"
value credentials_malformed = "access.credentials-malformed"
value disk_not_qcow2 = "disk.not-qcow2"
value disk_chain_cycle = "disk.chain-cycle"
value disk_not_standalone = "disk.not-standalone"
value disk_overlay_exists = "disk.overlay-exists"
value device_identity_mismatch = "device.identity-mismatch"
value fixture_entry_malformed = "fixture.entry-malformed"
value fixture_path_not_isolated = "fixture.path-not-isolated"
value fixture_request_malformed = "fixture.request-malformed"
value fixture_report_malformed = "fixture.report-malformed"
value fixture_state_unexpected = "fixture.state-unexpected"
value update_state_unexpected = "update.state-unexpected"
value update_rejection_not_observed = "update.rejection-not-observed"
value guest_not_ready = "guest.not-ready"
value inspection_mismatch = "initramfs.inspection-mismatch"
value lock_held = "lock.held"
value archive_entry_not_regular = "archive.entry-not-regular"
value stage_failed = "stage.failed"
value build_profile_not_reviewed = "build.profile-not-reviewed"
value build_parent_required = "build.parent-required"
value build_parent_not_complete = "build.parent-not-complete"
value build_record_malformed = "build.record-malformed"
value nvidia_lock_malformed = "build.nvidia-lock-malformed"
value nvidia_compiler_mismatch = "build.nvidia-compiler-mismatch"
value nvidia_report_unbound = "build.nvidia-report-unbound"
value nvidia_packages_incomplete = "build.nvidia-packages-incomplete"
value fingerprint_lock_malformed = "build.fingerprint-lock-malformed"
value fingerprint_report_unbound = "build.fingerprint-report-unbound"
value fingerprint_input_mismatch = "build.fingerprint-input-mismatch"
value ventoy_lock_malformed = "build.ventoy-lock-malformed"
value ubuntu_signer_unknown = "trust.ubuntu-signer-unknown"
value frozen_image_mismatch = "build.frozen-image-mismatch"
value builder_not_isolated = "build.builder-not-isolated"
value host_runs_as_root = "host.runs-as-root"
value compaction_input_unsafe = "compaction.input-unsafe"
value compaction_validation_failed = "compaction.validation-failed"
value compaction_space_insufficient = "compaction.space-insufficient"
value compaction_state_changed = "compaction.state-changed"
value compaction_retained_ineligible = "compaction.retained-ineligible"
value patch_source_not_reviewed = "patch.source-not-reviewed"
value patch_source_unexpected = "patch.source-unexpected"
value unknown_setting = "settings.unknown"
value inconsistent_settings = "settings.inconsistent"
value no_verified_result = "evidence.no-verified-result"
value hardware_requires_physical = "evidence.hardware-requires-physical"
value pass_requires_proof = "evidence.pass-requires-proof"
value unknown_check = "evidence.unknown-check"
value duplicate_evidence = "evidence.duplicate"
value stale_evidence = "evidence.stale-or-unbound"
value proof_kind_not_accepted = "evidence.proof-kind-not-accepted"
value simulated_environment = "evidence.simulated-environment"
value environment_not_witnessed = "evidence.environment-not-witnessed"
value retracted_by_operator = "evidence.retracted-by-operator"
value proof_altered = "evidence.proof-altered"
value proof_is_empty = "evidence.proof-is-empty"
value store_area_not_permitted = "evidence.store-area-not-permitted"
value store_version_not_supported = "evidence.store-version-not-supported"
value legacy_import_not_reproven = "evidence.legacy-import-not-reproven"
value record_not_bound_to_candidate = "evidence.record-not-bound-to-candidate"
value shell_string_not_accepted = "command.shell-string-not-accepted"
value secret_not_renderable = "secret.not-renderable"
value vendor_attribution_present = "style.vendor-attribution-present"
value repository_absolute_path = "repository.absolute-path"
value repository_path_escapes = "repository.path-escapes"
value repository_private_document = "repository.private-document"
value repository_environment_file = "repository.environment-file"
value repository_private_directory = "repository.private-directory"
value repository_private_artifact = "repository.private-artifact"
value repository_credential_document = "repository.credential-document"
value repository_passphrase_file = "repository.passphrase-file"
value repository_private_key_name = "repository.private-key-name"
value repository_token_document = "repository.token-document"
value repository_blob_too_large = "repository.blob-too-large"
value repository_blob_not_utf8 = "repository.blob-not-utf8"
value repository_blob_contains_nul = "repository.blob-contains-nul"
value repository_secret_material = "repository.secret-material"
value repository_local_only_content = "repository.local-only-content"
value repository_index_unmerged = "repository.index-unmerged"
value repository_history_not_fetched = "repository.history-not-fetched"
value repository_update_line_malformed = "repository.update-line-malformed"
value hook_argument_missing = "hook.argument-missing"
value hook_rules_not_loaded = "hook.rules-not-loaded"
value hook_kind_unknown = "hook.kind-unknown"
value hook_git_failed = "hook.git-failed"
value hook_content_unread = "hook.content-unread"
value hook_foreign = "hook.foreign-hook"
value hook_no_repository = "hook.no-repository"
value hook_ports_unwired = "hook.ports-unwired"
value commit_subject_malformed = "commit.subject-malformed"
value commit_subject_too_long = "commit.subject-too-long"
value commit_has_body = "commit.has-body"
value commit_carriage_return = "commit.carriage-return"
value profile_not_reviewed = "target.profile-not-reviewed"

-- The members in the order of their declaration.
abbrev members : List RefusalReason
members =
    malformed_digest ∷ malformed_identifier ∷ malformed_package_coordinate ∷ malformed_verdict
    ∷ malformed_device_number ∷ malformed_store_mark ∷ malformed_tree_row
    ∷ malformed_proof_reference ∷ malformed_artifact_manifest ∷ malformed_image_document
    ∷ malformed_oci_manifest ∷ malformed_screen_frame ∷ url_not_https ∷ filename_not_plain
    ∷ download_checksum_mismatch ∷ network_not_permitted ∷ trust_anchor_from_bundle
    ∷ signature_rejected ∷ bundle_content_unsigned ∷ artifact_checksum_mismatch
    ∷ signed_digest_mismatch ∷ image_metadata_mismatch ∷ negative_accepted ∷ negative_wrong_reason
    ∷ payload_contract_invalid ∷ lock_missing ∷ lock_unreadable ∷ lock_schema_unsupported
    ∷ lock_image_missing ∷ lock_image_digest_malformed ∷ lock_image_reference_mutable
    ∷ lock_sources_empty ∷ lock_entry_malformed ∷ lock_checksum_malformed
    ∷ lock_commit_not_object_id ∷ lock_filename_duplicate ∷ negative_quantity ∷ port_out_of_range
    ∷ mode_out_of_range ∷ limit_not_positive ∷ path_outside_runtime_root ∷ path_not_a_regular_file
    ∷ path_not_a_directory ∷ path_is_a_symlink ∷ path_contains_option_separator
    ∷ runtime_root_not_permitted ∷ runtime_root_not_private ∷ line_exceeds_limit ∷ frame_malformed
    ∷ frame_out_of_order ∷ frame_limit_exceeded ∷ frame_checksum_mismatch ∷ frame_incomplete
    ∷ request_malformed ∷ protocol_mismatch ∷ unit_unknown ∷ agent_refused
    ∷ probe_environment_unexpected ∷ sysfs_attribute_malformed ∷ probe_destination_taken
    ∷ device_not_permitted_for_role ∷ duplicate_device ∷ too_many_devices ∷ not_a_disposable_machine
    ∷ topology_inconsistent ∷ socket_path_too_long ∷ machine_not_running ∷ serial_console_absent
    ∷ fault_already_attempted ∷ fault_not_confirmed ∷ fault_disk_changed ∷ source_image_changed
    ∷ machine_role_mismatch ∷ command_retired ∷ command_unknown ∷ test_access_not_qcow2
    ∷ development_key_changed ∷ public_key_malformed ∷ machine_identity_changed
    ∷ machine_identity_uncheckable ∷ machine_running ∷ host_capacity_insufficient
    ∷ host_tool_missing ∷ firmware_absent ∷ lease_malformed ∷ lease_mismatch ∷ screen_size_changed
    ∷ console_text_unsupported ∷ session_already_open ∷ credentials_malformed ∷ disk_not_qcow2
    ∷ disk_chain_cycle ∷ disk_not_standalone ∷ disk_overlay_exists ∷ device_identity_mismatch
    ∷ fixture_entry_malformed ∷ fixture_path_not_isolated ∷ fixture_request_malformed
    ∷ fixture_report_malformed ∷ fixture_state_unexpected ∷ update_state_unexpected
    ∷ update_rejection_not_observed ∷ guest_not_ready ∷ inspection_mismatch ∷ lock_held
    ∷ archive_entry_not_regular ∷ stage_failed ∷ build_profile_not_reviewed ∷ build_parent_required
    ∷ build_parent_not_complete ∷ build_record_malformed ∷ nvidia_lock_malformed
    ∷ nvidia_compiler_mismatch ∷ nvidia_report_unbound ∷ nvidia_packages_incomplete
    ∷ fingerprint_lock_malformed ∷ fingerprint_report_unbound ∷ fingerprint_input_mismatch
    ∷ ventoy_lock_malformed ∷ ubuntu_signer_unknown ∷ frozen_image_mismatch ∷ builder_not_isolated
    ∷ host_runs_as_root ∷ compaction_input_unsafe ∷ compaction_validation_failed
    ∷ compaction_space_insufficient ∷ compaction_state_changed ∷ compaction_retained_ineligible
    ∷ patch_source_not_reviewed ∷ patch_source_unexpected ∷ unknown_setting ∷ inconsistent_settings
    ∷ no_verified_result ∷ hardware_requires_physical ∷ pass_requires_proof ∷ unknown_check
    ∷ duplicate_evidence ∷ stale_evidence ∷ proof_kind_not_accepted ∷ simulated_environment
    ∷ environment_not_witnessed ∷ retracted_by_operator ∷ proof_altered ∷ proof_is_empty
    ∷ store_area_not_permitted ∷ store_version_not_supported ∷ legacy_import_not_reproven
    ∷ record_not_bound_to_candidate ∷ shell_string_not_accepted ∷ secret_not_renderable
    ∷ vendor_attribution_present ∷ repository_absolute_path ∷ repository_path_escapes
    ∷ repository_private_document ∷ repository_environment_file ∷ repository_private_directory
    ∷ repository_private_artifact ∷ repository_credential_document ∷ repository_passphrase_file
    ∷ repository_private_key_name ∷ repository_token_document ∷ repository_blob_too_large
    ∷ repository_blob_not_utf8 ∷ repository_blob_contains_nul ∷ repository_secret_material
    ∷ repository_local_only_content ∷ repository_index_unmerged ∷ repository_history_not_fetched
    ∷ repository_update_line_malformed ∷ hook_argument_missing ∷ hook_rules_not_loaded
    ∷ hook_kind_unknown ∷ hook_git_failed ∷ hook_content_unread ∷ hook_foreign ∷ hook_no_repository
    ∷ hook_ports_unwired ∷ commit_subject_malformed ∷ commit_subject_too_long ∷ commit_has_body
    ∷ commit_carriage_return ∷ profile_not_reviewed ∷ []

find_value : String → List RefusalReason → Option RefusalReason
unfolding value
find_value code [] = none
find_value code (r ∷ rs) = let rest = find_value code rs in if value r == code then some r else rest

-- `RefusalReason(code)`, which raises ValueError for a code that no member has.
pub of_value : String → Option RefusalReason
unfolding find_value
of_value code = find_value code members

-- Every reason is found again by its code, so no two reasons share one.
pub of_value-value : (r : RefusalReason) → of_value (value r) ≡ some r
unfolding of_value
of_value-value malformed_digest = refl
of_value-value _ = refl
