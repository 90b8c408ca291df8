-- ===== src/Writer/Tables.antt =====
-- The writers of the six tables, and that their mappers fill their slots.
use ingest.Prelude.{nat_key, text_key}
use ingest.Columns.Spans.{spans_columns, spans_table, spans_values}
use ingest.Columns.Logs.{logs_columns, logs_table, logs_values}
use ingest.Columns.Metrics.{metrics_columns, metrics_table, metrics_values}
use ingest.Columns.Series.{series_columns, series_table, series_values}
use ingest.Columns.Stats.{stats_columns, stats_table, stats_values}
use ingest.Columns.Scores.{scores_columns, scores_table, scores_values}
use ingest.Columns.Mapped.{
  columns_of, log_row, map_row-row_image, metric_row, row_image, score_row, series_row, span_row,
  stat_row, values_of,
}
use ingest.Spans.Row.{Row}
use ingest.Logs.{LogRow}
use ingest.Metrics.Row.{MetricRow, SeriesRow}
use ingest.Stats.{StatRow, stat_key_order}
use ingest.Scores.{ScoreRow}
use ingest.Writer.{ClickHouseWriter, new_click_house_writer}
use ingest.Writer.Atomic.{Fills}

module _ {F : Type 0} where
  -- `spans.NewClickHouseWriter`
  unfoldable pub spans_writer : ClickHouseWriter F Row
  unfolding new_click_house_writer
  spans_writer = new_click_house_writer spans_table spans_columns spans_values

  -- `logs.NewDataWriter`
  unfoldable pub logs_writer : ClickHouseWriter F (LogRow F)
  unfolding new_click_house_writer
  logs_writer = new_click_house_writer logs_table logs_columns logs_values

  -- `NewMetricsClickHouseWriter`
  unfoldable pub metrics_writer : ClickHouseWriter F (MetricRow F)
  unfolding new_click_house_writer
  metrics_writer = new_click_house_writer metrics_table metrics_columns metrics_values

  -- `metricseries.NewClickHouseWriter`
  unfoldable pub series_writer : ClickHouseWriter F SeriesRow
  unfolding new_click_house_writer
  series_writer = new_click_house_writer series_table series_columns series_values

  -- `ingestionstats.NewClickHouseWriter`
  unfoldable pub stats_writer : ClickHouseWriter F StatRow
  unfolding new_click_house_writer
  stats_writer = new_click_house_writer stats_table stats_columns stats_values

  -- `llmscores.NewClickHouseWriter`
  unfoldable pub scores_writer : ClickHouseWriter F (ScoreRow F)
  unfolding new_click_house_writer
  scores_writer = new_click_house_writer scores_table scores_columns scores_values

  pub spans-Fills :
      Fills spans_writer.col_count spans_writer.row_mapper (λ r. row_image (span_row r))
  unfolding spans_writer values_of columns_of
  spans-Fills r = map_row-row_image (span_row r)

  pub logs-Fills : Fills logs_writer.col_count logs_writer.row_mapper (λ r. row_image (log_row r))
  unfolding logs_writer values_of columns_of
  logs-Fills r = map_row-row_image (log_row r)

  pub metrics-Fills :
      Fills metrics_writer.col_count metrics_writer.row_mapper (λ r. row_image (metric_row r))
  unfolding metrics_writer values_of columns_of
  metrics-Fills r = map_row-row_image (metric_row r)

  pub series-Fills :
      Fills series_writer.col_count series_writer.row_mapper (λ r. row_image (series_row r))
  unfolding series_writer values_of columns_of
  series-Fills r = map_row-row_image (series_row r)

  pub stats-Fills :
      Fills stats_writer.col_count stats_writer.row_mapper (λ r. row_image (stat_row r))
  unfolding stats_writer values_of columns_of
  stats-Fills r = map_row-row_image (stat_row r)

  pub scores-Fills :
      Fills scores_writer.col_count scores_writer.row_mapper (λ r. row_image (score_row r))
  unfolding scores_writer values_of columns_of
  scores-Fills r = map_row-row_image (score_row r)
