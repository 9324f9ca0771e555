-- ===== src/Kernel/Refusals.antt =====
-- src/apex/kernel/refusals.py: the identity of every deliberate refusal, and the code it is written as.
pub mod Codes

-- `class RefusalReason(enum.StrEnum)`
pub data RefusalReason : Type 0 where
  malformed_digest malformed_identifier malformed_package_coordinate malformed_verdict :
      RefusalReason
  malformed_device_number malformed_store_mark malformed_tree_row malformed_proof_reference :
      RefusalReason
  malformed_artifact_manifest malformed_image_document malformed_oci_manifest : RefusalReason
  malformed_screen_frame url_not_https filename_not_plain download_checksum_mismatch : RefusalReason
  network_not_permitted trust_anchor_from_bundle signature_rejected bundle_content_unsigned :
      RefusalReason
  artifact_checksum_mismatch signed_digest_mismatch image_metadata_mismatch negative_accepted :
      RefusalReason
  negative_wrong_reason payload_contract_invalid lock_missing lock_unreadable : RefusalReason
  lock_schema_unsupported lock_image_missing lock_image_digest_malformed : RefusalReason
  lock_image_reference_mutable lock_sources_empty lock_entry_malformed : RefusalReason
  lock_checksum_malformed lock_commit_not_object_id lock_filename_duplicate negative_quantity :
      RefusalReason
  port_out_of_range mode_out_of_range limit_not_positive path_outside_runtime_root : RefusalReason
  path_not_a_regular_file path_not_a_directory path_is_a_symlink : RefusalReason
  path_contains_option_separator runtime_root_not_permitted runtime_root_not_private : RefusalReason
  line_exceeds_limit frame_malformed frame_out_of_order frame_limit_exceeded : RefusalReason
  frame_checksum_mismatch frame_incomplete request_malformed protocol_mismatch unit_unknown :
      RefusalReason
  agent_refused probe_environment_unexpected sysfs_attribute_malformed : RefusalReason
  probe_destination_taken device_not_permitted_for_role duplicate_device too_many_devices :
      RefusalReason
  not_a_disposable_machine topology_inconsistent socket_path_too_long machine_not_running :
      RefusalReason
  serial_console_absent fault_already_attempted fault_not_confirmed fault_disk_changed :
      RefusalReason
  source_image_changed machine_role_mismatch command_retired command_unknown : RefusalReason
  test_access_not_qcow2 development_key_changed public_key_malformed machine_identity_changed :
      RefusalReason
  machine_identity_uncheckable machine_running host_capacity_insufficient host_tool_missing :
      RefusalReason
  firmware_absent lease_malformed lease_mismatch screen_size_changed console_text_unsupported :
      RefusalReason
  session_already_open credentials_malformed disk_not_qcow2 disk_chain_cycle : RefusalReason
  disk_not_standalone disk_overlay_exists device_identity_mismatch fixture_entry_malformed :
      RefusalReason
  fixture_path_not_isolated fixture_request_malformed fixture_report_malformed : RefusalReason
  fixture_state_unexpected update_state_unexpected update_rejection_not_observed : RefusalReason
  guest_not_ready inspection_mismatch lock_held archive_entry_not_regular stage_failed :
      RefusalReason
  build_profile_not_reviewed build_parent_required build_parent_not_complete : RefusalReason
  build_record_malformed nvidia_lock_malformed nvidia_compiler_mismatch nvidia_report_unbound :
      RefusalReason
  nvidia_packages_incomplete fingerprint_lock_malformed fingerprint_report_unbound : RefusalReason
  fingerprint_input_mismatch ventoy_lock_malformed ubuntu_signer_unknown : RefusalReason
  frozen_image_mismatch builder_not_isolated host_runs_as_root compaction_input_unsafe :
      RefusalReason
  compaction_validation_failed compaction_space_insufficient compaction_state_changed :
      RefusalReason
  compaction_retained_ineligible patch_source_not_reviewed patch_source_unexpected : RefusalReason
  unknown_setting inconsistent_settings no_verified_result hardware_requires_physical :
      RefusalReason
  pass_requires_proof unknown_check duplicate_evidence stale_evidence proof_kind_not_accepted :
      RefusalReason
  simulated_environment environment_not_witnessed retracted_by_operator proof_altered :
      RefusalReason
  proof_is_empty store_area_not_permitted store_version_not_supported : RefusalReason
  legacy_import_not_reproven record_not_bound_to_candidate shell_string_not_accepted : RefusalReason
  secret_not_renderable vendor_attribution_present repository_absolute_path : RefusalReason
  repository_path_escapes repository_private_document repository_environment_file : RefusalReason
  repository_private_directory repository_private_artifact repository_credential_document :
      RefusalReason
  repository_passphrase_file repository_private_key_name repository_token_document : RefusalReason
  repository_blob_too_large repository_blob_not_utf8 repository_blob_contains_nul : RefusalReason
  repository_secret_material repository_local_only_content repository_index_unmerged : RefusalReason
  repository_history_not_fetched repository_update_line_malformed hook_argument_missing :
      RefusalReason
  hook_rules_not_loaded hook_kind_unknown hook_git_failed hook_content_unread hook_foreign :
      RefusalReason
  hook_no_repository hook_ports_unwired commit_subject_malformed commit_subject_too_long :
      RefusalReason
  commit_has_body commit_carriage_return profile_not_reviewed : RefusalReason
