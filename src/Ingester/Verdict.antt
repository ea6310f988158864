-- ===== src/Ingester/Verdict.antt =====
-- The aggregation counts a row as the message loop judged its submission.
use eyrie.Base.{pair_eq, String, ◌≡◌, some, List, arith, nat_eq, string_eq}
use eyrie.Monitor.{Monitor, is_successful_status}
use eyrie.Submission.{CheckerSubmissionRequest}
use eyrie.Ingester.Tables.{
  Sql, find_monitor_config, ingested_row, determine_historical_success, success_of,
}
use eyrie.Ingester.Aggregate.{build_success_count_expression, counts_row}

-- For a row that was ingested for a monitor whose configuration has not changed since, the SQL expression
-- of the aggregates, the stored column and the test that the processor applies to the row agree.
pub counts_row-ingested :
    (sql : Sql) (monitors : List Monitor) (m : Monitor) (submission : CheckerSubmissionRequest)
    (region : String)
    → find_monitor_config monitors submission.monitor_id ≡ some m
    → (counts_row (build_success_count_expression m) (ingested_row sql monitors submission region)
        ≡ (ingested_row sql monitors submission region).success)
      × (is_successful_status m
            (ingested_row sql monitors submission region).status_code
            (ingested_row sql monitors submission region).success
          ≡ (ingested_row sql monitors submission region).success)
unfolding ingested_row determine_historical_success success_of build_success_count_expression
    counts_row is_successful_status
counts_row-ingested sql monitors m submission region found = ground arith
