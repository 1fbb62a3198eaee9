-- ===== src/Tests/Program.antt =====
-- For runs at concrete inputs: opening `program` opens every function that a run calls.
use vn_phone_dp.Prelude.{trim}
use vn_phone_dp.Prelude.Groups.{distinct}
use vn_phone_dp.Prelude.Sorting.{sort_by}
use vn_phone_dp.Phone.{normalizer}
use vn_phone_dp.Spam.{
  compute_risk_level, filtered, distinct_reporters, by_category, assign, tally_row, tally,
  summarize, get_spam_summary, submit_spam_report, get_recent_spam_reports,
}
use vn_phone_dp.Suppression.{
  upsert, suppress_number, delete_phone, unsuppress_number, is_suppressed, get_suppressed_set,
}
use vn_phone_dp.Settings.{get_setting, set_setting, is_auto_block_high_risk_enabled}
use vn_phone_dp.Directory.{
  before_close, best_label, known_phones, phone_rows, flag_rows, note_row, note_rows,
  get_spam_flags, is_scam, big_int, select_blocked, get_blocked_digits, is_trusted_source,
  has_trusted_evidence, candidates, highest_from, joined, rows_on, identity_rows, decimal,
  spam_label, lookup, label_of, known_entries, flagged_entries, is_visible,
  get_call_directory_entries,
}
use vn_phone_dp.Prelude.{option_eq}
use vn_phone_dp.CallLog.{
  identities_of, best_identity, integer_column, call_count_of, log_row, import_result,
  import_call_log_entries, group_key, latest_from, call_group, groups_of, grouped, summary_row,
  between, get_call_log_summary, is_unknown, get_unknown_numbers, priority_score,
  get_unknown_numbers_priority,
}
use vn_phone_dp.Guess.{
  begins_with, contains, mentions, category_of, name_run, company_at, company_match, is_junk_rest,
  cut_junk, collapse, normalize_name_key, guess_identity,
}
use vn_phone_dp.Candidates.{
  compute_score, rows_from_documents, observation_rows, push_row, by_phone, candidate_of, merge,
  note_candidate, candidates_by_key,
}
use vn_phone_dp.Aggregation.{
  upsert_identity, link_observation, link_evidence, store_candidate, store_candidates, phone_id_of,
  aggregate_phones, run_aggregation,
}
use vn_phone_dp.UserConfirmed.{
  ensure_user_submitted_source, raw_content, document_of, observation_of, national_number,
  upsert_number, confirmed_identity, upsert_claim, add_evidence, evidence_rows, recount, confirm,
  import_entry, import_entries, import_user_confirmed_identities,
}
use vn_phone_dp.Lookup.{
  spam_answer, phone_row, source_ids, source_count, identity_answers, row_answer, normalized_answer,
  lookup_phone, is_like, search_phones,
}
use vn_phone_dp.Prelude.{is_space, trim_start}
use vn_phone_dp.Matches.{match_from, match_all, replace_from, replace_all}
use vn_phone_dp.Extractor.{
  is_separator, unit, units, prefixed, phone_candidate, first_paragraph, last_paragraph,
  clamp_to_paragraph, candidate_at, extract_phone_candidates_from_text,
}
use vn_phone_dp.Extractor.Html.{
  literal, span, many, many1, sequence, alternatives, lazily, quote, element_of, slash, line_break,
  block_end, tel_href, title_start, title_element, title_text, tag, padded_newline,
  strip_html_to_visible_text, greedily, content_value, description_value, meta_description,
  tel_candidate, extract_phone_candidates_from_html,
}

unfoldable pub program : Unit {0}
unfolding trim distinct sort_by normalizer compute_risk_level filtered distinct_reporters
    by_category assign tally_row tally summarize get_spam_summary submit_spam_report
    get_recent_spam_reports upsert suppress_number delete_phone unsuppress_number is_suppressed
    get_suppressed_set get_setting set_setting is_auto_block_high_risk_enabled before_close
    best_label known_phones phone_rows flag_rows note_row note_rows get_spam_flags is_scam big_int
    select_blocked get_blocked_digits is_trusted_source has_trusted_evidence candidates highest_from
    joined rows_on identity_rows decimal spam_label lookup label_of known_entries flagged_entries
    is_visible get_call_directory_entries option_eq identities_of best_identity integer_column
    call_count_of log_row import_result import_call_log_entries group_key latest_from call_group
    groups_of grouped summary_row between get_call_log_summary is_unknown get_unknown_numbers
    priority_score get_unknown_numbers_priority begins_with contains mentions category_of name_run
    company_at company_match is_junk_rest cut_junk collapse normalize_name_key guess_identity
    compute_score rows_from_documents observation_rows push_row by_phone candidate_of merge
    note_candidate candidates_by_key upsert_identity link_observation link_evidence store_candidate
    store_candidates phone_id_of aggregate_phones run_aggregation ensure_user_submitted_source
    raw_content document_of observation_of national_number upsert_number confirmed_identity
    upsert_claim add_evidence evidence_rows recount confirm import_entry import_entries
    import_user_confirmed_identities spam_answer phone_row source_ids source_count identity_answers
    row_answer normalized_answer lookup_phone is_like search_phones is_space trim_start match_from
    match_all replace_from replace_all is_separator unit units prefixed phone_candidate
    first_paragraph last_paragraph clamp_to_paragraph candidate_at
    extract_phone_candidates_from_text literal span many many1 sequence alternatives lazily quote
    element_of slash line_break block_end tel_href title_start title_element title_text tag
    padded_newline strip_html_to_visible_text greedily content_value description_value
    meta_description tel_candidate extract_phone_candidates_from_html
program = tt
