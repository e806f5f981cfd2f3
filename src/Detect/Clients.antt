-- ===== src/Detect/Clients.antt =====
-- internal/detect/lockfile.go: the client libraries that betray a dependency.
use tortureu.Base.{String, List, [], ◌∷◌, Dict}

pub record ClientPattern : Type 0 where
  pub typ : String
  pub imports : List String

abbrev by : String → List String → ClientPattern
by typ imports = record { typ = typ; imports = imports }

unfoldable pub lockfile_only : List String
lockfile_only = "sqs" ∷ "dynamodb" ∷ "snowflake" ∷ "websocket" ∷ "jms" ∷ "ldap" ∷ "soap" ∷ []

unfoldable pub go_client_patterns : List ClientPattern
go_client_patterns =
    by "postgresql" ("github.com/lib/pq" ∷ "github.com/jackc/pgx" ∷ [])
    ∷ by "mysql" ("github.com/go-sql-driver/mysql" ∷ [])
    ∷ by "redis" ("github.com/go-redis/redis" ∷ "github.com/redis/go-redis" ∷ [])
    ∷ by "mongodb" ("go.mongodb.org/mongo-driver" ∷ [])
    ∷ by "kafka" ("github.com/Shopify/sarama" ∷ "github.com/IBM/sarama" ∷ [])
    ∷ by "rabbitmq" ("github.com/rabbitmq/amqp091-go" ∷ "github.com/streadway/amqp" ∷ [])
    ∷ by "nats" ("github.com/nats-io/nats.go" ∷ [])
    ∷ by "cassandra" ("github.com/gocql/gocql" ∷ [])
    ∷ by "etcd" ("go.etcd.io/etcd/client" ∷ [])
    ∷ by "s3"
        ("github.com/aws/aws-sdk-go-v2/service/s3" ∷ "github.com/aws/aws-sdk-go/service/s3" ∷ [])
    ∷ by "sqs"
        ("github.com/aws/aws-sdk-go-v2/service/sqs" ∷ "github.com/aws/aws-sdk-go/service/sqs" ∷ [])
    ∷ by "dynamodb" (
        "github.com/aws/aws-sdk-go-v2/service/dynamodb"
        ∷ "github.com/aws/aws-sdk-go/service/dynamodb" ∷ [])
    ∷ by "mqtt" ("github.com/eclipse/paho.mqtt.golang" ∷ [])
    ∷ by "websocket" ("github.com/gorilla/websocket" ∷ [])
    ∷ by "ldap" ("github.com/go-ldap/ldap" ∷ [])
    ∷ []

unfoldable pub node_client_patterns : List ClientPattern
node_client_patterns =
    by "postgresql" ("pg" ∷ [])
    ∷ by "mysql" ("mysql2" ∷ [])
    ∷ by "redis" ("ioredis" ∷ [])
    ∷ by "mongodb" ("mongoose" ∷ [])
    ∷ by "kafka" ("kafkajs" ∷ [])
    ∷ by "rabbitmq" ("amqplib" ∷ [])
    ∷ by "nats" ("nats" ∷ [])
    ∷ by "s3" ("@aws-sdk/client-s3" ∷ [])
    ∷ by "sqs" ("@aws-sdk/client-sqs" ∷ [])
    ∷ by "dynamodb" ("@aws-sdk/client-dynamodb" ∷ [])
    ∷ by "websocket" ("ws" ∷ [])
    ∷ by "smtp" ("nodemailer" ∷ [])
    ∷ by "ldap" ("ldapjs" ∷ [])
    ∷ []

unfoldable pub py_client_patterns : List ClientPattern
py_client_patterns =
    by "postgresql" ("psycopg2" ∷ "psycopg" ∷ "asyncpg" ∷ [])
    ∷ by "mysql" ("pymysql" ∷ [])
    ∷ by "redis" ("redis" ∷ [])
    ∷ by "mongodb" ("pymongo" ∷ [])
    ∷ by "kafka" ("confluent-kafka" ∷ "kafka-python" ∷ [])
    ∷ by "rabbitmq" ("pika" ∷ [])
    ∷ by "mqtt" ("paho-mqtt" ∷ [])
    ∷ by "websocket" ("websockets" ∷ [])
    ∷ by "ldap" ("ldap3" ∷ [])
    ∷ []

unfoldable pub ruby_client_patterns : List ClientPattern
ruby_client_patterns =
    by "postgresql" ("pg" ∷ [])
    ∷ by "mysql" ("mysql2" ∷ [])
    ∷ by "redis" ("redis" ∷ [])
    ∷ by "mongodb" ("mongo" ∷ "mongoid" ∷ [])
    ∷ by "kafka" ("ruby-kafka" ∷ "rdkafka" ∷ "karafka" ∷ [])
    ∷ by "rabbitmq" ("bunny" ∷ [])
    ∷ by "nats" ("nats-pure" ∷ [])
    ∷ by "elasticsearch" ("elasticsearch" ∷ [])
    ∷ by "cassandra" ("cassandra-driver" ∷ [])
    ∷ by "s3" ("aws-sdk-s3" ∷ [])
    ∷ by "sqs" ("aws-sdk-sqs" ∷ [])
    ∷ by "dynamodb" ("aws-sdk-dynamodb" ∷ [])
    ∷ by "mqtt" ("mqtt" ∷ [])
    ∷ by "websocket" ("faye-websocket" ∷ [])
    ∷ by "ldap" ("net-ldap" ∷ [])
    ∷ by "soap" ("savon" ∷ [])
    ∷ []

unfoldable pub java_client_patterns : List ClientPattern
java_client_patterns =
    by "postgresql" ("org.postgresql:postgresql" ∷ [])
    ∷ by "mysql" ("mysql:mysql-connector-java" ∷ "com.mysql:mysql-connector-j" ∷ [])
    ∷ by "redis" (
        "redis.clients:jedis" ∷ "io.lettuce:lettuce-core"
        ∷ "org.springframework.data:spring-data-redis" ∷ [])
    ∷ by "mongodb" ("org.mongodb:mongodb-driver" ∷ "org.mongodb:mongo-java-driver" ∷ [])
    ∷ by "kafka" ("org.apache.kafka:kafka-clients" ∷ "org.springframework.kafka:spring-kafka" ∷ [])
    ∷ by "rabbitmq" ("com.rabbitmq:amqp-client" ∷ "org.springframework.amqp:spring-rabbit" ∷ [])
    ∷ by "elasticsearch" (
        "co.elastic.clients:elasticsearch-java" ∷ "org.elasticsearch.client:elasticsearch-rest"
        ∷ [])
    ∷ by "cassandra" ("com.datastax.oss:java-driver-core" ∷ [])
    ∷ by "etcd" ("io.etcd:jetcd-core" ∷ [])
    ∷ by "s3" ("software.amazon.awssdk:s3" ∷ "com.amazonaws:aws-java-sdk-s3" ∷ [])
    ∷ by "sqs" ("software.amazon.awssdk:sqs" ∷ "com.amazonaws:aws-java-sdk-sqs" ∷ [])
    ∷ by "dynamodb" ("software.amazon.awssdk:dynamodb" ∷ "com.amazonaws:aws-java-sdk-dynamodb" ∷ [])
    ∷ by "snowflake" ("net.snowflake:snowflake-jdbc" ∷ [])
    ∷ by "mqtt" ("org.eclipse.paho:org.eclipse.paho.client.mqttv3" ∷ [])
    ∷ by "jms" (
        "javax.jms:javax.jms-api" ∷ "jakarta.jms:jakarta.jms-api" ∷ "org.springframework:spring-jms"
        ∷ [])
    ∷ by "ldap" ("org.springframework.ldap:spring-ldap-core" ∷ [])
    ∷ by "soap" ("org.springframework.ws:spring-ws-core" ∷ [])
    ∷ []

unfoldable pub aws_sdk_imports : Dict (List String)
aws_sdk_imports =
    ("go", "github.com/aws/aws-sdk-go" ∷ [])
    ∷ ("node", "aws-sdk" ∷ "@aws-sdk/" ∷ [])
    ∷ ("python", "boto3" ∷ "botocore" ∷ [])
    ∷ ("ruby", "aws-sdk" ∷ [])
    ∷ ("java", "software.amazon.awssdk:" ∷ "com.amazonaws:" ∷ [])
    ∷ []

unfoldable pub azure_sdk_imports : Dict (List String)
azure_sdk_imports =
    ("go", "github.com/Azure/azure-sdk-for-go" ∷ [])
    ∷ ("node", "@azure/" ∷ [])
    ∷ ("python", "azure-" ∷ [])
    ∷ ("ruby", "azure-" ∷ [])
    ∷ ("java", "com.azure:" ∷ [])
    ∷ []

unfoldable pub otel_client_imports : Dict (List String)
otel_client_imports =
    ("go", "go.opentelemetry.io/otel" ∷ [])
    ∷ ("node", "@opentelemetry/" ∷ [])
    ∷ ("python", "opentelemetry-" ∷ [])
    ∷ ("ruby", "opentelemetry-" ∷ [])
    ∷ ("java", "io.opentelemetry:" ∷ [])
    ∷ []
